-- ===== src/Base/Memory.antt =====
-- The C library's functions on blocks of bytes. A block is the list of the bytes that can be
-- reached from a pointer; `none` is an access past its end, which C leaves undefined.
use Prim.Native.Nat.{ℕ, zero, suc, ◌-◌, ◌≤◌, ◌<◌}
use mathlib.Core.Path.{◌≡◌, refl, ap, ◌∙◌}
use mathlib.Core.Bool.{Bool, true, false}
use mathlib.Core.List.{List, [], ◌∷◌, ◌++◌, append-nil}
use mathlib.Core.Option.{Option, none, some}
use native.Mathlib.Omega.{arith}
use mathlib.Core.Logic.{inl, inr}
use ietf_anima_signaling_pro.Base.Tests.{leb, ◌==◌, if◌then◌else◌, Option-cases}
use ietf_anima_signaling_pro.Base.Lists.{length, take, drop, drop_all}

-- A byte in front of the block that the rest of a copy leaves.
abbrev pub put : ℕ → Option (List ℕ) → Option (List ℕ)
put c none = none
put c (some r) = some (c ∷ r)

-- The block `dst` after `memcpy(dst, src, n)`.
unfoldable pub memcpy : List ℕ → List ℕ → ℕ → Option (List ℕ)
memcpy dst src zero = some dst
memcpy [] src (suc n) = none
memcpy (d ∷ dst) [] (suc n) = none
memcpy (d ∷ dst) (c ∷ src) (suc n) = put c (memcpy dst src n)

-- The block `dst` after `strncpy(dst, src, n)`: past the end of the string it pads with zeros.
unfoldable pub strncpy : List ℕ → List ℕ → ℕ → Option (List ℕ)
strncpy dst src zero = some dst
strncpy [] src (suc n) = none
strncpy (d ∷ dst) [] (suc n) = none
strncpy (d ∷ dst) (zero ∷ src) (suc n) = put 0 (strncpy dst (0 ∷ src) n)
strncpy (d ∷ dst) (suc c ∷ src) (suc n) = put (suc c) (strncpy dst src n)

-- The block `dst` after `strcpy(dst, src)`.
unfoldable pub strcpy : List ℕ → List ℕ → Option (List ℕ)
strcpy dst [] = none
strcpy [] (c ∷ src) = none
strcpy (d ∷ dst) (zero ∷ src) = some (0 ∷ dst)
strcpy (d ∷ dst) (suc c ∷ src) = put (suc c) (strcpy dst src)

abbrev pub count_one : Option ℕ → Option ℕ
count_one none = none
count_one (some n) = some (suc n)

unfoldable pub strlen : List ℕ → Option ℕ
strlen [] = none
strlen (zero ∷ src) = some 0
strlen (suc c ∷ src) = count_one (strlen src)

-- Whether `strcmp(a, b)` is 0.
unfoldable pub strcmp_eq : List ℕ → List ℕ → Option Bool
strcmp_eq [] b = none
strcmp_eq (a ∷ s) [] = none
strcmp_eq (zero ∷ s) (b ∷ t) = some (b == 0)
strcmp_eq (suc a ∷ s) (b ∷ t) = let rest = strcmp_eq s t in if suc a == b then rest else some false

-- `n` bytes after `memset(p, 0, n)`.
unfoldable pub zeros : ℕ → List ℕ
zeros zero = []
zeros (suc n) = 0 ∷ zeros n

pub length-zeros : (n : ℕ) → length (zeros n) ≡ n
unfolding zeros
length-zeros zero = refl
length-zeros (suc n) = ap suc (length-zeros n)

pub drop-zeros : (k n : ℕ) → drop k (zeros n) ≡ zeros (n - k)
unfolding zeros
drop-zeros zero n = ap zeros (omega arith)
drop-zeros (suc k) zero = ap zeros {x = 0} (omega arith)
drop-zeros (suc k) (suc n) = drop-zeros k n ∙ ap zeros (omega arith)

pub take-zeros : (k n : ℕ) → k ≤ n → take k (zeros n) ≡ zeros k
unfolding zeros
take-zeros zero n h = refl
take-zeros (suc k) zero h = absurd (omega arith)
take-zeros (suc k) (suc n) h = ap (◌∷◌ 0) (take-zeros k n (omega arith))

-- No byte of the list ends a string.
abbrev pub IsText : List ℕ → Type 0
IsText [] = Unit {0}
IsText (c ∷ s) = (0 < c) × IsText s

pub memcpy_fits :
    (dst src : List ℕ) (n : ℕ)
    → n ≤ length dst
    → n ≤ length src
    → memcpy dst src n ≡ some (take n src ++ drop n dst)
unfolding memcpy
memcpy_fits dst src zero p q = refl
memcpy_fits [] src (suc n) p q = absurd (omega arith)
memcpy_fits (d ∷ dst) [] (suc n) p q = absurd (omega arith)
memcpy_fits (d ∷ dst) (c ∷ src) (suc n) p q =
    ap (put c) (memcpy_fits dst src n (omega arith) (omega arith))

-- A copy that fills its block.
pub memcpy_fill :
    (dst src : List ℕ) (n : ℕ)
    → length dst ≡ n
    → n ≤ length src
    → memcpy dst src n ≡ some (take n src)
memcpy_fill dst src n p q =
    memcpy_fits dst src n (omega arith) q
    ∙ ap some (ap (◌++◌ (take n src)) (drop_all n dst (omega arith)) ∙ append-nil (take n src))

-- A copy longer than the block it writes to is undefined.
pub memcpy_overflow : (dst src : List ℕ) (n : ℕ) → length dst < n → memcpy dst src n ≡ none
unfolding memcpy
memcpy_overflow dst src zero p = absurd (omega arith)
memcpy_overflow [] src (suc n) p = refl
memcpy_overflow (d ∷ dst) [] (suc n) p = refl
memcpy_overflow (d ∷ dst) (c ∷ src) (suc n) p = ap (put c) (memcpy_overflow dst src n (omega arith))

-- So is a copy longer than the block it reads from.
pub memcpy_overread : (dst src : List ℕ) (n : ℕ) → length src < n → memcpy dst src n ≡ none
unfolding memcpy
memcpy_overread dst src zero p = absurd (omega arith)
memcpy_overread [] src (suc n) p = refl
memcpy_overread (d ∷ dst) [] (suc n) p = refl
memcpy_overread (d ∷ dst) (c ∷ src) (suc n) p = ap (put c) (memcpy_overread dst src n (omega arith))

-- A copy leaves the length of its block.
pub length-memcpy :
    (dst src : List ℕ) (n : ℕ) (r : List ℕ) → memcpy dst src n ≡ some r → length r ≡ length dst
unfolding memcpy
length-memcpy dst src zero r h = ground arith
length-memcpy [] src (suc n) r h = cc
length-memcpy (d ∷ dst) [] (suc n) r h = cc
length-memcpy (d ∷ dst) (c ∷ src) (suc n) r h = elim (Option-cases (memcpy dst src n)) [
  | inl missing ↦ absurd (ground arith)
  | inr (x, copied) ↦ ground (arith, length-memcpy dst src n x copied)
]

pub strlen_text : (s r : List ℕ) → IsText s → strlen (s ++ 0 ∷ r) ≡ some (length s)
unfolding strlen
strlen_text [] r t = refl
strlen_text (zero ∷ s) r t = absurd (omega arith)
strlen_text (suc c ∷ s) r t = ap count_one (strlen_text s r t.1)

pub strncpy_text :
    (s r dst : List ℕ)
    → IsText s
    → length s ≤ length dst
    → strncpy dst (s ++ r) (length s) ≡ some (s ++ drop (length s) dst)
unfolding strncpy
strncpy_text [] r dst t p = refl
strncpy_text (c ∷ s) r [] t p = absurd (omega arith)
strncpy_text (zero ∷ s) r (d ∷ dst) t p = absurd (omega arith)
strncpy_text (suc c ∷ s) r (d ∷ dst) t p = ap (put (suc c)) (strncpy_text s r dst t.1 (omega arith))

-- Whatever the string is, a copy longer than its block is undefined.
pub strncpy_overflow : (n : ℕ) (dst src : List ℕ) → length dst < n → strncpy dst src n ≡ none
unfolding strncpy
strncpy_overflow zero dst src p = absurd (omega arith)
strncpy_overflow (suc n) [] src p = refl
strncpy_overflow (suc n) (d ∷ dst) [] p = refl
strncpy_overflow (suc n) (d ∷ dst) (zero ∷ src) p =
    ap (put 0) (strncpy_overflow n dst (0 ∷ src) (omega arith))
strncpy_overflow (suc n) (d ∷ dst) (suc c ∷ src) p =
    ap (put (suc c)) (strncpy_overflow n dst src (omega arith))

pub strcmp_eq_refl : (s r q : List ℕ) → IsText s → strcmp_eq (s ++ 0 ∷ r) (s ++ 0 ∷ q) ≡ some true
unfolding strcmp_eq
strcmp_eq_refl [] r q t = refl
strcmp_eq_refl (zero ∷ s) r q t = absurd (omega arith)
strcmp_eq_refl (suc c ∷ s) r q t = ground (arith, strcmp_eq_refl s r q t.1)

put-eq-some :
    (c : ℕ) (o : Option (List ℕ)) (r : List ℕ)
    → put c o ≡ some r
    → (s : List ℕ) × (o ≡ some s) × (r ≡ c ∷ s)
put-eq-some c none r h = cc
put-eq-some c (some s) r h = (s, refl, cc)

-- A comparison cannot tell a string from its copy.
pub strcmp_eq-strcpy : (dst b a r : List ℕ) → strcpy dst b ≡ some r → strcmp_eq a r ≡ strcmp_eq a b
unfolding strcpy strcmp_eq
strcmp_eq-strcpy dst [] a r h = cc
strcmp_eq-strcpy [] (c ∷ b) a r h = cc
strcmp_eq-strcpy (d ∷ dst) (zero ∷ b) [] r h = ground arith
strcmp_eq-strcpy (d ∷ dst) (zero ∷ b) (zero ∷ a) r h = ground arith
strcmp_eq-strcpy (d ∷ dst) (zero ∷ b) (suc x ∷ a) r h = ground arith
strcmp_eq-strcpy (d ∷ dst) (suc c ∷ b) [] r h = ground arith
strcmp_eq-strcpy (d ∷ dst) (suc c ∷ b) (zero ∷ a) r h =
    let (s, hs, e) = put-eq-some (suc c) (strcpy dst b) r h in rw e refl
strcmp_eq-strcpy (d ∷ dst) (suc c ∷ b) (suc x ∷ a) r h =
    let (s, hs, e) = put-eq-some (suc c) (strcpy dst b) r h in
    rw e (ground (arith, strcmp_eq-strcpy dst b a s hs))

-- A result that a copy of `s` to the block `chunk` leaves: undefined if the block is too short.
abbrev pub if_room {ℓ} : {A : Type ℓ} → List ℕ → List ℕ → A → Option A
if_room s chunk x = if leb (length s) (length chunk) then some x else none

-- What is done if there is room, where there is.
pub leb-then {ℓ} : {A : Type ℓ} (a b : ℕ) (x y : A) → a ≤ b → (if leb a b then x else y) ≡ x
leb-then a b x y h = ground arith

pub if_room-some {ℓ} :
    {A : Type ℓ} (s chunk : List ℕ) (x : A) → length s ≤ length chunk → if_room s chunk x ≡ some x
if_room-some s chunk x room = ground arith
