-- ===== src/GdnpOption/Fields.antt =====
-- The three words in front of an option's value, and the value field.
use ietf_anima_signaling_pro.Base.{
  if_room, leb, Bool-cases, inl, inr, strncpy_overflow, ℕ, ◌+◌, ◌*◌, ◌<◌, ◌≡◌, refl, ap, ◌∙◌,
  bit_or, bit_or-shifted, u16, List, ◌++◌, drop, length, zeros, length-zeros, length-append,
  memcpy_fill, take-append, IsText, strncpy_text, some, arith,
}
use ietf_anima_signaling_pro.GdnpOption.{
  OptionType, ObjectiveOption, option_type_code, option_type_of, value_field, loop_and_flag,
  copy_value,
}

pub option_type_of-code : (t : OptionType) → option_type_of (option_type_code t) ≡ some t
unfolding option_type_of option_type_code
option_type_of-code t = ground arith

pub option_type_code-lt : (t : OptionType) → option_type_code t < 8
unfolding option_type_code
option_type_code-lt t = ground arith

pub option_type_code-of :
    (n : ℕ) (t : OptionType) → option_type_of n ≡ some t → n ≡ option_type_code t
unfolding option_type_of option_type_code
option_type_code-of n t h = ground arith

pub loop_and_flag-sum :
    (o : ObjectiveOption)
    → o.loop_count < 256
    → o.flag < 256
    → loop_and_flag o ≡ o.loop_count * 256 + o.flag
loop_and_flag-sum o p q =
    ap (λ w. bit_or w o.flag) {x = u16 (o.loop_count * 256)} {y = o.loop_count * 256} (omega arith)
    ∙ bit_or-shifted 8 o.loop_count o.flag q

pub value_field-block :
    (t : OptionType) (s r : List ℕ)
    → value_field (record { type = t; len = length s; value = some (s ++ r) }) ≡ some s
unfolding value_field
value_field-block t s r =
    memcpy_fill (zeros (length s)) (s ++ r) (length s) (length-zeros (length s))
      (omega (arith, length-append s r))
    ∙ ap some (take-append (length s) s r refl)

-- The copy of a text, whether the block has room for it or not.
pub copy_value-text :
    (chunk s r : List ℕ)
    → IsText s
    → 0 < length s
    → copy_value chunk (s ++ r) (length s) ≡ if_room s chunk (some (s ++ drop (length s) chunk))
unfolding copy_value
copy_value-text chunk s r t p = elim (Bool-cases (leb (length s) (length chunk))) [
  | inl room ↦ ground (arith, strncpy_text s r chunk t)
  | inr full ↦ ground (arith, strncpy_overflow (length s) chunk (s ++ r))
]
