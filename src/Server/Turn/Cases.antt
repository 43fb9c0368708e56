-- ===== src/Server/Turn/Cases.antt =====
-- Server.cpp, `run`: what a round that comes through does to the master, by the branch it takes.
use ietf_anima_signaling_pro.Base.{
  Option-cases, ℕ, ◌≡◌, refl, sym, ◌∙◌, Endian, Option, some, Bool, true, false, arith, Bool-cases,
  inl, inr,
}
use ietf_anima_signaling_pro.Server.Turn.{
  Master, World, Select, ready, Act, unserved, blocked, no_socket, select_error, waited, with_lock,
  watchable, is_ready, serve, turn, serve_udp, serve_listen, serve_tcp, after_select, timed_out,
  select_failed,
}

pub data Turned {Address : Type 0} (e : Endian) (w : World Address) (m m' : Master)
    (act : Act Address) : Type 0 where
  unchanged : m' ≡ m → Turned e w m m' act
  locks : (b : Bool) → m.locked ≡ false → m' ≡ with_lock b m → Turned e w m m' act
  accepts :
      m.locked ≡ false → serve_listen w (with_lock false m) ≡ some (m', act) → Turned e w m m' act
  reads :
      m.locked ≡ false → serve_tcp e w (with_lock false m) ≡ some (m', act) → Turned e w m m' act

returned :
    {Address : Type 0} (m m' : Master) (done act : Act Address)
    → ◌≡◌ {A = Option (Master × Act Address)} (some (m, done)) (some (m', act))
    → m' ≡ m
returned m m' done act h = cc

serve_udp-master :
    {Address : Type 0} (e : Endian) (w : World Address) (m m' : Master) (act : Act Address)
    → serve_udp e w m ≡ some (m', act)
    → m' ≡ m
unfolding serve_udp
serve_udp-master e w m m' act h = ground arith

module _ {Address : Type 0} (e : Endian) (w : World Address) (m m' : Master)
    (act : Act Address) where
  serve-cases :
      (r : ℕ → Bool) → m.locked ≡ false → serve e w r m ≡ some (m', act) → Turned e w m m' act
  unfolding serve
  serve-cases r free h = elim (Bool-cases (is_ready m.udp_sock r)) [
    | inl udp ↦ locks false free (serve_udp-master e w (with_lock false m) m' act (rw udp at h))
    | inr no_udp ↦ elim (Bool-cases (is_ready m.listen_sock r)) [
      | inl listen ↦ accepts free (rw (no_udp, listen) at h)
      | inr no_listen ↦ elim (Bool-cases (is_ready m.tcp_sock r)) [
        | inl tcp ↦ reads free (rw (no_udp, no_listen, tcp) at h)
        | inr no_tcp ↦
            locks true free
              (returned (with_lock true m) m' unserved act (rw (no_udp, no_listen, no_tcp) at h))
      ]
    ]
  ]

  selected-cases :
      (s : Select) → m.locked ≡ false → after_select e w s m ≡ some (m', act) → Turned e w m m' act
  selected-cases select_failed free h = unchanged (returned m m' select_error act h)
  selected-cases timed_out free h = unchanged (returned m m' waited act h)
  selected-cases (ready r) free h = serve-cases r free h

  selects :
      (s : Select) (fd : ℕ)
      → m.udp_sock ≡ some fd
      → m.locked ≡ false
      → watchable m.table.accepted m.table.fds ≡ true
      → turn e w s m ≡ after_select e w s m
  unfolding turn
  selects s fd udp free fine = rw (udp, free, fine) refl

  -- A round leaves the master as it is, changes the lock alone, accepts a client, or reads a
  -- message; and it finds the lock free unless it leaves all as it is.
  pub turn-cases : (s : Select) → turn e w s m ≡ some (m', act) → Turned e w m m' act
  unfolding turn
  turn-cases s h = elim (Option-cases m.udp_sock) [
    | inl closed ↦ unchanged (returned m m' no_socket act (sym (rw closed refl) ∙ h))
    | inr (fd, udp) ↦ elim (Bool-cases m.locked) [
      | inl held ↦ unchanged (returned m m' blocked act (sym (rw (udp, held) refl) ∙ h))
      | inr free ↦ elim (Bool-cases (watchable m.table.accepted m.table.fds)) [
        | inl fine ↦ selected-cases s free (sym (selects s fd udp free fine) ∙ h)
        | inr minus_one ↦ absurd (ground arith)
      ]
    ]
  ]
