-- ===== src/Base/Bytes.antt =====
-- Machine words, and how they lie in memory. The program stores its words in the byte order of
-- the machine, which is a parameter.
use Prim.Native.Nat.{ℕ, ◌+◌, ◌*◌, ◌/◌, ◌%◌, ◌^◌, ◌<◌}
use mathlib.Core.Path.{◌≡◌}
use mathlib.Core.List.{List, [], ◌∷◌, ◌++◌}
use mathlib.Core.Option.{Option, none, some}
use native.Mathlib.Omega.{arith}

abbrev pub u8 : ℕ → ℕ
u8 n = n % 2 ^ 8

abbrev pub u16 : ℕ → ℕ
u16 n = n % 2 ^ 16

abbrev pub u32 : ℕ → ℕ
u32 n = n % 2 ^ 32

pub data Endian : Type 0 where
  little big : Endian

-- The two bytes of a `uint16_t`, and the four of a `uint32_t`.
abbrev pub store16 : Endian → ℕ → List ℕ
store16 little n = n % 256 ∷ n / 256 % 256 ∷ []
store16 big n = n / 256 % 256 ∷ n % 256 ∷ []

abbrev pub store32 : Endian → ℕ → List ℕ
store32 little n = n % 256 ∷ n / 256 % 256 ∷ n / 65536 % 256 ∷ n / 16777216 % 256 ∷ []
store32 big n = n / 16777216 % 256 ∷ n / 65536 % 256 ∷ n / 256 % 256 ∷ n % 256 ∷ []

-- A read past the end of the block is `none`.
abbrev pub load16 : Endian → List ℕ → Option ℕ
load16 little (a ∷ b ∷ r) = some (a + 256 * b)
load16 big (a ∷ b ∷ r) = some (256 * a + b)
load16 e _ = none

abbrev pub load32 : Endian → List ℕ → Option ℕ
load32 little (a ∷ b ∷ c ∷ d ∷ r) = some (a + 256 * b + 65536 * c + 16777216 * d)
load32 big (a ∷ b ∷ c ∷ d ∷ r) = some (16777216 * a + 65536 * b + 256 * c + d)
load32 e _ = none

pub load16-store16 :
    (e : Endian) (n : ℕ) (r : List ℕ) → n < 2 ^ 16 → load16 e (store16 e n ++ r) ≡ some n
load16-store16 little n r h = ground arith
load16-store16 big n r h = ground arith

pub load32-store32 :
    (e : Endian) (n : ℕ) (r : List ℕ) → n < 2 ^ 32 → load32 e (store32 e n ++ r) ≡ some n
load32-store32 little n r h = ground arith
load32-store32 big n r h = ground arith
