-- ===== src/Server/Descriptors.antt =====
-- Server.cpp, `clear_when_session_end`: the table of accepted sockets. `accepted` is `tcp_accepted`,
-- `fds` the array `tcp_fd_set`, of which the first `accepted` entries are in use.
pub mod Halving
pub mod Removal
use ietf_anima_signaling_pro.Base.{
  ◌>>=◌, ℕ, zero, suc, ◌+◌, ◌-◌, ◌/◌, ◌≤◌, ◌<◌, ◌≡◌, refl, ◌∙◌, ◌==◌, ltb, if◌then◌else◌, List, [],
  ◌∷◌, Option, none, some, Bool, true, false, arith, ◌⊎◌, inl, inr, Bool-cases,
}
use ietf_anima_signaling_pro.Pdu.{Descriptor}

-- `MAX_CLIENTS_NUM`.
abbrev pub max_clients_num : ℕ
max_clients_num = 5

pub record Table : Type 0 where
  pub fds : List Descriptor
  pub accepted : ℕ

-- `a == b` on descriptors.
abbrev pub same_fd : Descriptor → Descriptor → Bool
same_fd none none = true
same_fd none (some b) = false
same_fd (some a) none = false
same_fd (some a) (some b) = a == b

-- `fds[i]`; `none`: past the end of the array.
unfoldable pub fd_at : ℕ → List Descriptor → Option Descriptor
fd_at i [] = none
fd_at zero (d ∷ fds) = some d
fd_at (suc i) (d ∷ fds) = fd_at i fds

-- The `while` loop, `n` of its rounds: `fds[j] = fds[j + 1]` for each `j` from `i` on.
unfoldable pub shift_left : ℕ → ℕ → List Descriptor → Option (List Descriptor)
shift_left n i [] = if n == 0 then some [] else none
shift_left zero i (d ∷ fds) = some (d ∷ fds)
shift_left (suc n) zero (d ∷ []) = none
shift_left (suc n) zero (d ∷ e ∷ fds) = shift_left n zero (e ∷ fds) >>= λ r. some (e ∷ r)
shift_left (suc n) (suc i) (d ∷ fds) = shift_left (suc n) i fds >>= λ r. some (d ∷ r)

-- The body of the `for` loop: the count goes down in every round, whether the entry matches or not.
unfoldable pub clear_round : Descriptor → ℕ → Table → Option Table
clear_round tcp_sock i t = do
  fd ← fd_at i t.fds
  fds ← if same_fd fd tcp_sock then shift_left (t.accepted - 1 - i) i t.fds else some t.fds
  some (record { fds = fds; accepted = t.accepted - 1 })

-- How the loop ends: out of fuel, with an access past the array, or with the table.
pub data Looping : Type 0 where
  out_of_fuel : Looping
  out_of_bounds : Looping
  finished : Table → Looping

abbrev pub then_on : Option Table → (Table → Looping) → Looping
then_on none k = out_of_bounds
then_on (some t) k = k t

-- The `for` loop from `i` on.
unfoldable pub clear_descriptors : ℕ → Descriptor → ℕ → Table → Looping
clear_descriptors zero tcp_sock i t = out_of_fuel
clear_descriptors (suc fuel) tcp_sock i t =
    let rest =
      then_on (clear_round tcp_sock i t) (λ u. clear_descriptors fuel tcp_sock (i + 1) u) in
    if ltb i t.accepted then rest else finished t
