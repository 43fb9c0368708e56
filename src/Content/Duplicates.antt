-- ===== src/Content/Duplicates.antt =====
-- What `operator ==` can tell apart in bodies that hold options.
use mathlib.Core.List.{append_assoc}
use ietf_anima_signaling_pro.Base.{
  Option-cases, strcmp_eq-strcpy, inl, inr, ℕ, zero, suc, ◌≡◌, Endian, little, big, store16, List,
  ◌∷◌, ◌++◌, strcmp_eq, strcpy, some, true, arith,
}
use ietf_anima_signaling_pro.Msg.{MsgType}
use ietf_anima_signaling_pro.GdnpOption.{
  OptionType, ObjectiveOption, option_type_code, objective_to_bits, value_field, loop_and_flag,
}
use ietf_anima_signaling_pro.GdnpOption.Fields.{option_type_code-lt}
use ietf_anima_signaling_pro.Content.{Content, content_eq, assign}

same_first_byte : (c : ℕ) (xs ys : List ℕ) → strcmp_eq (c ∷ 0 ∷ xs) (c ∷ 0 ∷ ys) ≡ some true
unfolding strcmp_eq
same_first_byte zero xs ys = ground arith
same_first_byte (suc c) xs ys = ground arith

-- Two bodies that begin with the type word of one option type are one string.
same_word :
    (e : Endian) (t : OptionType) (xs ys : List ℕ)
    → strcmp_eq (store16 e (option_type_code t) ++ xs) (store16 e (option_type_code t) ++ ys)
      ≡ some true
unfolding strcmp_eq
same_word little t xs ys =
    ground (arith, same_first_byte (option_type_code t) xs ys, option_type_code-lt t)
same_word big t xs ys = ground (arith, option_type_code-lt t)

-- Bits of an objective option begin with its type word.
pub objective_bits-type :
    (e : Endian) (o : ObjectiveOption) (bits : List ℕ)
    → objective_to_bits e o ≡ some bits
    → (rest : List ℕ) × (bits ≡ store16 e (option_type_code o.type) ++ rest)
unfolding objective_to_bits
objective_bits-type e o bits h = elim (Option-cases (value_field o.base)) [
  | inl missing ↦ absurd (ground arith)
  | inr (f, found) ↦ (store16 e o.len ++ (store16 e (loop_and_flag o) ++ f), ground arith)
]

-- The comparison takes two contents of one message type for the same as soon as both hold
-- objective options of one option type: length, loop count, flag and value are not compared.
pub content_eq-objective :
    (e : Endian) (m : MsgType) (o p : ObjectiveOption) (bits bits' rest rest' : List ℕ)
    → objective_to_bits e o ≡ some bits
    → objective_to_bits e p ≡ some bits'
    → o.type ≡ p.type
    → content_eq
        (record { type = m; body = bits ++ rest })
        (record { type = m; body = bits' ++ rest' })
      ≡ some true
unfolding content_eq
content_eq-objective e m o p bits bits' rest rest' ho hp same =
    let (tail, eo) = objective_bits-type e o bits ho in
    let (tail', ep) = objective_bits-type e p bits' hp in
    ground (
      arith,
      same_word e p.type (tail ++ rest) (tail' ++ rest'),
      append_assoc (store16 e (option_type_code o.type)) tail rest,
      append_assoc (store16 e (option_type_code p.type)) tail' rest',
    )

-- A content compares with a copy that `operator =` made as it compares with the original, although
-- only the string at the start of the body is copied.
pub content_eq-assign :
    (old c kept x : Content) → assign old c ≡ some kept → content_eq x kept ≡ content_eq x c
unfolding assign content_eq
content_eq-assign old c kept x h = elim (Option-cases (strcpy old.body c.body)) [
  | inl missing ↦ absurd (ground arith)
  | inr (r, copied) ↦ ground (arith, strcmp_eq-strcpy old.body c.body x.body r copied)
]
