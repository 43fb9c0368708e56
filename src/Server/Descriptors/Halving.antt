-- ===== src/Server/Descriptors/Halving.antt =====
-- Server.cpp, `clear_when_session_end`: how many accepted sockets are left.
use ietf_anima_signaling_pro.Base.{
  ℕ, zero, suc, ◌+◌, ◌-◌, ◌/◌, ◌≤◌, ◌<◌, ◌≡◌, refl, ltb, List, [], ◌∷◌, some, arith, inl, inr,
  Bool-cases, length,
}
use ietf_anima_signaling_pro.Pdu.{Descriptor}
use ietf_anima_signaling_pro.Server.Descriptors.{
  Table, same_fd, fd_at, shift_left, clear_round, clear_descriptors, finished,
}

fd_at_below :
    (i : ℕ) (fds : List Descriptor) → i < length fds → (d : Descriptor) × (fd_at i fds ≡ some d)
unfolding fd_at
fd_at_below i [] h = absurd (omega (arith, h))
fd_at_below zero (d ∷ fds) h = (d, refl)
fd_at_below (suc i) (d ∷ fds) h = fd_at_below i fds (omega (arith, h))

shift_left_fits :
    (n i : ℕ) (fds : List Descriptor)
    → i + n < length fds
    → (r : List Descriptor) × (shift_left n i fds ≡ some r) × (length r ≡ length fds)
unfolding shift_left
shift_left_fits n i [] h = absurd (omega (arith, h))
shift_left_fits zero i (d ∷ fds) h = (d ∷ fds, refl, refl)
shift_left_fits (suc n) zero (d ∷ []) h = absurd (omega (arith, h))
shift_left_fits (suc n) zero (d ∷ e ∷ fds) h =
    let (r, p, l) = shift_left_fits n zero (e ∷ fds) (omega (arith, h)) in
    (e ∷ r, rw p refl, omega (arith, l))
shift_left_fits (suc n) (suc i) (d ∷ fds) h =
    let (r, p, l) = shift_left_fits (suc n) i fds (omega (arith, h)) in
    (d ∷ r, rw p refl, omega (arith, l))

clear_round_fits :
    (tcp_sock : Descriptor) (i : ℕ) (t : Table)
    → i < t.accepted
    → t.accepted ≤ length t.fds
    → (u : Table) × (clear_round tcp_sock i t ≡ some u)
      × (u.accepted ≡ t.accepted - 1)
      × (length u.fds ≡ length t.fds)
unfolding clear_round
clear_round_fits tcp_sock i t h b =
    let (d, p) = fd_at_below i t.fds (omega (arith, h, b)) in
    let (r, q, l) = shift_left_fits (t.accepted - 1 - i) i t.fds (omega (arith, h, b)) in
    elim (Bool-cases (same_fd d tcp_sock)) [
      | inl same ↦ (record { fds = r; accepted = t.accepted - 1 }, rw (p, same, q) refl, refl, l)
      | inr other ↦
          (record { fds = t.fds; accepted = t.accepted - 1 }, rw (p, other) refl, refl, refl)
    ]

clear_descriptors_from :
    (fuel : ℕ) (tcp_sock : Descriptor) (i : ℕ) (t : Table)
    → t.accepted - i < fuel
    → t.accepted ≤ length t.fds
    → (u : Table) × (clear_descriptors fuel tcp_sock i t ≡ finished u)
      × (u.accepted ≡ t.accepted - (t.accepted - i + 1) / 2)
      × (length u.fds ≡ length t.fds)
unfolding clear_descriptors
clear_descriptors_from zero tcp_sock i t h b = absurd (omega (arith, h))
clear_descriptors_from (suc fuel) tcp_sock i t h b = elim (Bool-cases (ltb i t.accepted)) [
  | inl more ↦
      let inside : i < t.accepted = ground (arith, more) in
      let (u, p, a, l) = clear_round_fits tcp_sock i t inside b in
      let (v, q, c, k) =
        clear_descriptors_from fuel tcp_sock (i + 1) u (omega (arith, h, a, inside))
          (omega (arith, a, l, b)) in
      (v, rw (more, p) q, omega (arith, c, a, inside), omega (arith, k, l))
  | inr over ↦
      let outside : t.accepted ≤ i = ground (arith, over) in
      (t, rw over refl, omega (arith, outside), refl)
]

-- When one session ends, the loop over the accepted sockets halves their number, whichever entry
-- holds the session's socket, and even if none does. It ends within `accepted + 1` rounds, and
-- every access is inside the array.
pub clear_descriptors-halves :
    (tcp_sock : Descriptor) (t : Table)
    → t.accepted ≤ length t.fds
    → (u : Table) × (clear_descriptors (t.accepted + 1) tcp_sock 0 t ≡ finished u)
      × (u.accepted ≡ t.accepted / 2)
      × (length u.fds ≡ length t.fds)
clear_descriptors-halves tcp_sock t b =
    let (u, p, a, l) = clear_descriptors_from (t.accepted + 1) tcp_sock 0 t (omega arith) b in
    (u, p, omega (arith, a), l)
