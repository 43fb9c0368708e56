-- ===== src/GdnpOption/Roundtrip.antt =====
-- Parsing what was printed.
use ietf_anima_signaling_pro.Base.{
  ℕ, ◌+◌, ◌*◌, ◌^◌, ◌<◌, ◌≡◌, refl, Endian, little, big, store16, List, ◌++◌, drop, length, IsText,
  none, some, arith, zeros, if_room,
}
use ietf_anima_signaling_pro.GdnpOption.{
  OptionType, ObjectiveOption, option_type_code, to_bits, objective_to_bits, parse_bits,
  objective_parse_bits, value_field, copy_value,
}
use ietf_anima_signaling_pro.GdnpOption.Fields.{
  option_type_of-code, option_type_code-lt, loop_and_flag-sum, value_field-block, copy_value-text,
}

-- An objective option whose value is the block that begins with the text `s`.
abbrev pub with_text : OptionType → ℕ → ℕ → List ℕ → List ℕ → ObjectiveOption
with_text t loop flag s r = record {
  base = record { type = t; len = length s; value = some (s ++ r) };
  loop_count = loop;
  flag = flag;
}

-- An option with a text of 1 to 65535 bytes as value is printed as four bytes and the text. What the
-- parser makes of that, whatever follows it, depends on the block that `malloc` returns there for two
-- bytes, whatever the length is. If the bytes that can be written to in it are as many as the text
-- has, the option comes back: the same type, the same length, and a value that begins with the text,
-- with what the block held before behind it. If they are fewer, the parser writes past the end of
-- the block, and what it does is undefined.
pub parse_bits-to_bits :
    (e : Endian) (t : OptionType) (s r chunk rest : List ℕ)
    → IsText s
    → 0 < length s
    → length s < 2 ^ 16
    → (bits : List ℕ) × (to_bits e (record { type = t; len = length s; value = some (s ++ r) })
        ≡ some bits)
      × (length bits ≡ length s + 4)
      × (parse_bits e chunk (bits ++ rest)
          ≡ if_room s chunk
              (record { type = t; len = length s; value = some (s ++ drop (length s) chunk) }))
unfolding to_bits parse_bits
parse_bits-to_bits little t s r chunk rest text pos short = (
  store16 little (option_type_code t) ++ store16 little (length s) ++ s,
  rw (value_field-block t s r),
  omega arith,
  ground
      (arith, option_type_of-code t, option_type_code-lt t, copy_value-text chunk s rest text pos),
)
parse_bits-to_bits big t s r chunk rest text pos short = (
  store16 big (option_type_code t) ++ store16 big (length s) ++ s,
  rw (value_field-block t s r),
  omega arith,
  ground
      (arith, option_type_of-code t, option_type_code-lt t, copy_value-text chunk s rest text pos),
)

objective_little :
    (t : OptionType) (loop flag : ℕ) (s r chunk rest : List ℕ)
    → IsText s
    → 0 < length s
    → length s < 2 ^ 16
    → loop < 256
    → flag < 256
    → (bits : List ℕ) × (objective_to_bits little (with_text t loop flag s r) ≡ some bits)
      × (length bits ≡ length s + 6)
      × (objective_parse_bits little chunk (bits ++ rest)
          ≡ if_room s chunk (with_text t loop flag s (drop (length s) chunk)))
unfolding objective_to_bits objective_parse_bits
objective_little t loop flag s r chunk rest text pos short hl hf = (
  store16 little (option_type_code t)
      ++ store16 little (length s)
      ++ store16 little (loop * 256 + flag)
      ++ s,
  rw (value_field-block t s r, loop_and_flag-sum (with_text t loop flag s r) hl hf),
  omega arith,
  ground
      (arith, option_type_of-code t, option_type_code-lt t, copy_value-text chunk s rest text pos),
)

objective_big :
    (t : OptionType) (loop flag : ℕ) (s r chunk rest : List ℕ)
    → IsText s
    → 0 < length s
    → length s < 2 ^ 16
    → loop < 256
    → flag < 256
    → (bits : List ℕ) × (objective_to_bits big (with_text t loop flag s r) ≡ some bits)
      × (length bits ≡ length s + 6)
      × (objective_parse_bits big chunk (bits ++ rest)
          ≡ if_room s chunk (with_text t loop flag s (drop (length s) chunk)))
unfolding objective_to_bits objective_parse_bits
objective_big t loop flag s r chunk rest text pos short hl hf = (
  store16 big (option_type_code t)
      ++ store16 big (length s)
      ++ store16 big (loop * 256 + flag)
      ++ s,
  rw (value_field-block t s r, loop_and_flag-sum (with_text t loop flag s r) hl hf),
  omega arith,
  ground
      (arith, option_type_of-code t, option_type_code-lt t, copy_value-text chunk s rest text pos),
)

-- An objective option with a text of 1 to 65535 bytes as value is printed, in either byte order, as
-- six bytes and the text. If the block that `malloc` returns to the parser for two bytes has room
-- for the text, the option comes back: the same type, length, loop count and flag, the last two of a
-- byte each, and a value that begins with the text, with what the block held before behind it. If
-- the block has no room for it, the parser writes past its end, and what it does is undefined.
pub objective_parse_bits-to_bits :
    (e : Endian) (t : OptionType) (loop flag : ℕ) (s r chunk rest : List ℕ)
    → IsText s
    → 0 < length s
    → length s < 2 ^ 16
    → loop < 256
    → flag < 256
    → (bits : List ℕ) × (objective_to_bits e (with_text t loop flag s r) ≡ some bits)
      × (length bits ≡ length s + 6)
      × (objective_parse_bits e chunk (bits ++ rest)
          ≡ if_room s chunk (with_text t loop flag s (drop (length s) chunk)))
objective_parse_bits-to_bits little = objective_little
objective_parse_bits-to_bits big = objective_big

-- An option without a value, such as `Accept` and `Decline` carry, is four bytes, and is parsed
-- back with the null pointer.
pub parse_bits-to_bits_empty :
    (e : Endian) (t : OptionType) (chunk rest : List ℕ)
    → (bits : List ℕ) × (to_bits e (record { type = t; len = 0; value = none }) ≡ some bits)
      × (length bits ≡ 4)
      × (parse_bits e chunk (bits ++ rest) ≡ some (record { type = t; len = 0; value = none }))
unfolding to_bits parse_bits value_field copy_value zeros
parse_bits-to_bits_empty little t chunk rest = (
  store16 little (option_type_code t) ++ store16 little 0,
  refl,
  refl,
  ground (arith, option_type_of-code t, option_type_code-lt t),
)
parse_bits-to_bits_empty big t chunk rest = (
  store16 big (option_type_code t) ++ store16 big 0,
  refl,
  refl,
  ground (arith, option_type_of-code t, option_type_code-lt t),
)
