-- ===== src/Server/Descriptors/Removal.antt =====
-- Server.cpp, `clear_when_session_end`: what the inner loop does to the table.
use ietf_anima_signaling_pro.Base.{
  ◌>>=◌, ℕ, zero, suc, ◌+◌, ◌<◌, ◌≡◌, refl, ap, List, [], ◌∷◌, ◌++◌, length, take, drop, some,
  arith,
}
use ietf_anima_signaling_pro.Pdu.{Descriptor}
use ietf_anima_signaling_pro.Server.Descriptors.{shift_left}

take-drop : (i : ℕ) (fds : List Descriptor) → fds ≡ take i fds ++ drop i fds
take-drop zero fds = refl
take-drop (suc i) [] = refl
take-drop (suc i) (d ∷ fds) = ap (◌∷◌ d) (take-drop i fds)

-- The inner loop, of `n` rounds from the index `i`, is one removal: the entry at `i` is gone, the
-- `n` entries behind it are one place further to the front, the entry at `i + n` stays where it is
-- as well, and nothing else changes, if the table has an entry at `i + n`.
pub shift_left-removes :
    (n i : ℕ) (fds : List Descriptor)
    → i + n < length fds
    → shift_left n i fds ≡ some (take i fds ++ (take n (drop (suc i) fds) ++ drop n (drop i fds)))
unfolding shift_left
shift_left-removes n i [] h = absurd (omega (arith, h))
shift_left-removes zero i (d ∷ fds) h = ap some (take-drop i (d ∷ fds))
shift_left-removes (suc n) zero (d ∷ []) h = absurd (omega (arith, h))
shift_left-removes (suc n) zero (d ∷ e ∷ fds) h =
    ap (λ o. o >>= λ r. some (e ∷ r)) (shift_left-removes n zero (e ∷ fds) (omega (arith, h)))
shift_left-removes (suc n) (suc i) (d ∷ fds) h =
    ap (λ o. o >>= λ r. some (d ∷ r)) (shift_left-removes (suc n) i fds (omega (arith, h)))
