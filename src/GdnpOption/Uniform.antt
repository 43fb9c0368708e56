-- ===== src/GdnpOption/Uniform.antt =====
-- The bits of an option, and what every parser of the same byte order makes of them.
use mathlib.Core.Option.{some-injective}
use ietf_anima_signaling_pro.GdnpOption.Fields.{option_type_of-code, option_type_code-lt}
use ietf_anima_signaling_pro.Base.{
  if_room, zeros, little, big, store16, length-drop, suc, strncpy, subst, ℕ, ◌+◌, ◌^◌, ◌≤◌, ◌<◌,
  ◌≡◌, ap, sym, ◌∙◌, Endian, List, [], ◌∷◌, ◌++◌, length, drop, load16, IsText, Option, none, some,
  arith, >>=-eq-some, zero, refl,
}
use ietf_anima_signaling_pro.GdnpOption.{
  value_field, option_type_code, copy_value, option_type_of, OptionType, GdnpOption,
  ObjectiveOption, objective_to_bits, objective_parse_bits, to_bits, parse_bits,
}
use ietf_anima_signaling_pro.GdnpOption.Roundtrip.{
  parse_bits-to_bits_empty, with_text, objective_parse_bits-to_bits,
}

-- The printed form does not depend on the parser's block.
pub objective_text :
    (e : Endian) (t : OptionType) (loop flag : ℕ) (s r : List ℕ)
    → IsText s
    → 0 < length s
    → length s < 2 ^ 16
    → loop < 256
    → flag < 256
    → (bits : List ℕ) × (objective_to_bits e (with_text t loop flag s r) ≡ some bits)
      × (length bits ≡ length s + 6)
      × ((chunk rest : List ℕ)
          → objective_parse_bits e chunk (bits ++ rest)
            ≡ if_room s chunk (with_text t loop flag s (drop (length s) chunk)))
objective_text e t loop flag s r text pos short hl hf =
    let (bits, p, l, _) =
      objective_parse_bits-to_bits e t loop flag s r s [] text pos short hl hf in
    (
      bits,
      p,
      l,
      λ chunk rest.
          let (again, q, k, parsed) =
            objective_parse_bits-to_bits e t loop flag s r chunk rest text pos short hl hf in
          let same : again ≡ bits = ap (λ o. elim o [ none ↦ [] | some b ↦ b ]) (sym q ∙ p) in
          subst
            (λ b.
              objective_parse_bits e chunk (b ++ rest)
              ≡ if_room s chunk (with_text t loop flag s (drop (length s) chunk)))
            same parsed,
    )

-- What is parsed fits in bytes.
pub objective_parse_bits-bytes :
    (e : Endian) (chunk bits : List ℕ) (o : ObjectiveOption)
    → objective_parse_bits e chunk bits ≡ some o
    → (o.loop_count < 256) × (o.flag < 256)
unfolding objective_parse_bits
objective_parse_bits-bytes e chunk bits o h =
    let (number, h0, k0) = >>=-eq-some (load16 e bits) _ h in
    let (type, h1, k1) = >>=-eq-some (option_type_of number) _ k0 in
    let (len, h2, k2) = >>=-eq-some (load16 e (drop 2 bits)) _ k1 in
    let (word, h3, k3) = >>=-eq-some (load16 e (drop 4 bits)) _ k2 in
    let (value, h4, k4) = >>=-eq-some (copy_value chunk (drop 6 bits) len) _ k3 in
    (ground (arith, k4), ground (arith, k4))

-- What both parsers make of the four bytes of an option without a value.
abbrev pub without_value : OptionType → ObjectiveOption
without_value t = record {
  base = record { type = t; len = 0; value = none };
  loop_count = 0;
  flag = 0;
}

empty_objective :
    (e : Endian) (t : OptionType) (chunk rest : List ℕ)
    → objective_parse_bits e chunk
        (store16 e (option_type_code t) ++ (store16 e 0 ++ (0 ∷ 0 ∷ rest)))
      ≡ some (without_value t)
unfolding objective_parse_bits copy_value
empty_objective little t chunk rest = ground (arith, option_type_of-code t, option_type_code-lt t)
empty_objective big t chunk rest = ground (arith, option_type_of-code t, option_type_code-lt t)

zeros-two : (n : ℕ) → zeros (suc (suc n)) ≡ 0 ∷ 0 ∷ zeros n
unfolding zeros
zeros-two n = refl

empty_bits :
    (e : Endian) (t : OptionType) (bits : List ℕ)
    → to_bits e (record { type = t; len = 0; value = none }) ≡ some bits
    → store16 e (option_type_code t) ++ (store16 e 0 ++ []) ≡ bits
unfolding to_bits value_field zeros
empty_bits e t bits h = some-injective _ _ h

regrouped :
    (e : Endian) (t : OptionType) (chunk rest : List ℕ)
    → objective_parse_bits e chunk
        ((store16 e (option_type_code t) ++ (store16 e 0 ++ [])) ++ (0 ∷ 0 ∷ rest))
      ≡ some (without_value t)
regrouped little t chunk rest = empty_objective little t chunk rest
regrouped big t chunk rest = empty_objective big t chunk rest

-- The same of an option without a value, in a block of 1000 bytes.
pub empty_option :
    (e : Endian) (t : OptionType)
    → (bits : List ℕ) × (to_bits e (record { type = t; len = 0; value = none }) ≡ some bits)
      × (length bits ≡ 4)
      × ((chunk rest : List ℕ)
          → parse_bits e chunk (bits ++ rest) ≡ some (record { type = t; len = 0; value = none }))
      × ((chunk : List ℕ)
          → objective_parse_bits e chunk (bits ++ zeros 996) ≡ some (without_value t))
empty_option e t =
    let (bits, p, l, _) = parse_bits-to_bits_empty e t [] [] in
    (
      bits,
      p,
      l,
      λ chunk rest.
          let (again, q, k, parsed) = parse_bits-to_bits_empty e t chunk rest in
          subst
            (λ b.
              parse_bits e chunk (b ++ rest) ≡ some (record { type = t; len = 0; value = none }))
            (ap (λ o. elim o [ none ↦ [] | some b ↦ b ]) (sym q ∙ p)) parsed,
      λ chunk.
          ap (objective_parse_bits e chunk) (
            ap (λ b. b ++ zeros 996) (sym (empty_bits e t bits p))
            ∙ ap (λ z. (store16 e (option_type_code t) ++ (store16 e 0 ++ [])) ++ z)
                (zeros-two 994))
          ∙ regrouped e t chunk (zeros 994),
    )

strncpy-defined :
    (dst src : List ℕ) (n : ℕ)
    → n ≤ length dst
    → n ≤ length src
    → (v : List ℕ) × (strncpy dst src n ≡ some v)
unfolding strncpy
strncpy-defined dst src zero p q = (dst, refl)
strncpy-defined [] src (suc n) p q = absurd (omega arith)
strncpy-defined (d ∷ dst) [] (suc n) p q = absurd (omega arith)
strncpy-defined (d ∷ dst) (zero ∷ src) (suc n) p q =
    let (v, h) = strncpy-defined dst (0 ∷ src) n (omega arith) (omega arith) in (0 ∷ v, rw h refl)
strncpy-defined (d ∷ dst) (suc c ∷ src) (suc n) p q =
    let (v, h) = strncpy-defined dst src n (omega arith) (omega arith) in (suc c ∷ v, rw h refl)

copy_value-defined :
    (chunk src : List ℕ) (n : ℕ)
    → n ≤ length chunk
    → n ≤ length src
    → (v : Option (List ℕ)) × (copy_value chunk src n ≡ some v)
unfolding copy_value
copy_value-defined chunk src zero p q = (none, refl)
copy_value-defined chunk src (suc n) p q =
    let (v, h) = strncpy-defined chunk src (suc n) p q in (some v, ground (arith, h))

parse_bits-steps :
    (e : Endian) (chunk bits : List ℕ) (number : ℕ) (type : OptionType) (len : ℕ)
    (v : Option (List ℕ))
    → load16 e bits ≡ some number
    → option_type_of number ≡ some type
    → load16 e (drop 2 bits) ≡ some len
    → copy_value chunk (drop 4 bits) len ≡ some v
    → parse_bits e chunk bits ≡ some (record { type = type; len = len; value = v })
unfolding parse_bits
parse_bits-steps e chunk bits number type len v h0 h1 h2 h3 = rw (h0, h1, h2, h3) refl

renamed :
    (t t' : OptionType) (n n' : ℕ) (v : Option (List ℕ))
    → t ≡ t'
    → n ≡ n'
    → ◌≡◌ {A = Option GdnpOption}
        (some (record { type = t; len = n; value = v }))
        (some (record { type = t'; len = n'; value = v }))
renamed t t' n n' v p q = rw (p, q) refl

-- The length field of what the objective parser takes.
pub objective_parse_bits-length :
    (e : Endian) (chunk bits : List ℕ) (oo : ObjectiveOption)
    → objective_parse_bits e chunk bits ≡ some oo
    → load16 e (drop 2 bits) ≡ some oo.len
unfolding objective_parse_bits
objective_parse_bits-length e chunk bits oo h =
    let (number, h0, k0) = >>=-eq-some (load16 e bits) _ h in
    let (type, h1, k1) = >>=-eq-some (option_type_of number) _ k0 in
    let (len, h2, k2) = >>=-eq-some (load16 e (drop 2 bits)) _ k1 in
    let (word, h3, k3) = >>=-eq-some (load16 e (drop 4 bits)) _ k2 in
    let (value, h4, k4) = >>=-eq-some (copy_value chunk (drop 6 bits) len) _ k3 in
    h2 ∙ ap some (ap (λ (x : ObjectiveOption). x.len) (some-injective _ _ k4))

-- What the objective parser takes, the other one takes as well, if there is room for the value; it
-- gives the same type and length.
pub parse_bits-objective :
    (e : Endian) (chunk chunk' bits : List ℕ) (oo : ObjectiveOption)
    → objective_parse_bits e chunk bits ≡ some oo
    → oo.len ≤ length chunk'
    → oo.len + 4 ≤ length bits
    → (v : Option (List ℕ)) × (parse_bits e chunk' bits
        ≡ some (record { type = oo.type; len = oo.len; value = v }))
unfolding objective_parse_bits
parse_bits-objective e chunk chunk' bits oo h room enough =
    let (number, h0, k0) = >>=-eq-some (load16 e bits) _ h in
    let (type, h1, k1) = >>=-eq-some (option_type_of number) _ k0 in
    let (len, h2, k2) = >>=-eq-some (load16 e (drop 2 bits)) _ k1 in
    let (word, h3, k3) = >>=-eq-some (load16 e (drop 4 bits)) _ k2 in
    let (value, h4, k4) = >>=-eq-some (copy_value chunk (drop 6 bits) len) _ k3 in
    let same : len ≡ oo.len = ap (λ (x : ObjectiveOption). x.len) (some-injective _ _ k4) in
    let type_same : type ≡ oo.type = ap (λ (x : ObjectiveOption). x.type) (some-injective _ _ k4) in
    let (v, copied) =
      copy_value-defined chunk' (drop 4 bits) len (omega (arith, room, same))
        (omega (arith, enough, same, length-drop 4 bits)) in
    (
      v,
      parse_bits-steps e chunk' bits number type len v h0 h1 h2 copied
          ∙ renamed type oo.type len oo.len v type_same same,
    )
