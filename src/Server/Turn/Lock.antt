-- ===== src/Server/Turn/Lock.antt =====
-- Server.cpp, `run`: which sockets a round serves, and what happens to `fdset_lock` and the table.
use ietf_anima_signaling_pro.Base.{
  ◌∙◌, sym, ap, subst, ℕ, zero, suc, ◌+◌, ◌≤◌, ◌<◌, ◌≡◌, refl, ltb, Endian, List, [], ◌∷◌, length,
  none, some, Bool, true, false, arith, Bool-cases, inl, inr,
}
use ietf_anima_signaling_pro.Pdu.{Descriptor}
use ietf_anima_signaling_pro.Server.Descriptors.{Table, max_clients_num}
use ietf_anima_signaling_pro.Server.Turn.Cases.{turn-cases, unchanged, locks, accepts, reads}
use ietf_anima_signaling_pro.Server.Turn.{
  Master, World, Select, ready, Act, unserved, blocked, table_full, client_accepted, with_lock,
  watchable, is_ready, serve, turn, fd_put, serve_listen, serve_tcp,
}

-- A round in which neither the datagram socket, nor the listening one, nor the socket that was
-- accepted last is ready, so that `select` can only have reported an older one, serves nobody and
-- keeps `fdset_lock`: the round after it waits for that lock, whatever `select` would answer.
pub turn-older_socket :
    {Address : Type 0} (e : Endian) (w w' : World Address) (r : ℕ → Bool) (s : Select) (m : Master)
    (fd : ℕ)
    → m.udp_sock ≡ some fd
    → m.locked ≡ false
    → watchable m.table.accepted m.table.fds ≡ true
    → r fd ≡ false
    → is_ready m.listen_sock r ≡ false
    → is_ready m.tcp_sock r ≡ false
    → (turn e w (ready r) m ≡ some (with_lock true m, unserved))
      × (turn e w' s (with_lock true m) ≡ some (with_lock true m, blocked))
unfolding turn serve
turn-older_socket e w w' r s m fd udp free fine no_udp no_listen no_tcp =
    (rw (udp, free, fine, no_udp, no_listen, no_tcp) refl, rw udp refl)

-- With five clients, a connection that waits to be accepted stops all negotiation: a round with
-- the datagram socket quiet leaves the master exactly as it was. It neither accepts the connection
-- nor reads a message of a client, whichever of their sockets are ready.
pub turn-full :
    {Address : Type 0} (e : Endian) (w : World Address) (r : ℕ → Bool) (m : Master) (fd fd' : ℕ)
    → m.udp_sock ≡ some fd
    → m.listen_sock ≡ some fd'
    → m.locked ≡ false
    → watchable m.table.accepted m.table.fds ≡ true
    → m.table.accepted ≡ max_clients_num
    → r fd ≡ false
    → r fd' ≡ true
    → turn e w (ready r) m ≡ some (m, table_full)
unfolding turn serve serve_listen
turn-full e w r m fd fd' udp listen free fine full no_udp listening =
    rw (udp, free, fine, no_udp, listen, listening, full) refl

-- What holds of the table between rounds: its size is that of the array, and at most all of it is
-- in use.
pub record IsTable (t : Table) : Type 0 where
  pub whole : length t.fds ≡ max_clients_num
  pub bounded : t.accepted ≤ max_clients_num

fd_put_fits :
    (i : ℕ) (fd : Descriptor) (fds : List Descriptor)
    → i < length fds
    → (r : List Descriptor) × (fd_put i fd fds ≡ some r) × (length r ≡ length fds)
unfolding fd_put
fd_put_fits i fd [] h = absurd (omega (arith, h))
fd_put_fits zero fd (d ∷ fds) h = (fd ∷ fds, refl, refl)
fd_put_fits (suc i) fd (d ∷ fds) h =
    let (r, p, l) = fd_put_fits i fd fds (omega (arith, h)) in (d ∷ r, rw p refl, omega (arith, l))

-- Accepting a client never writes outside the array: it always comes through, whatever `accept`
-- answers.
serve_listen-IsTable :
    {Address : Type 0} (w : World Address) (m : Master)
    → IsTable m.table
    → (m' : Master) × (act : Act Address) × (serve_listen w m ≡ some (m', act)) × IsTable m'.table
unfolding serve_listen
serve_listen-IsTable w m t = elim (Bool-cases (ltb m.table.accepted max_clients_num)) [
  | inl place ↦
      let below : m.table.accepted < 5 = ground (arith, place) in
      let (r, p, l) =
        fd_put_fits m.table.accepted w.accepting m.table.fds (omega (arith, below, t.whole)) in
      (
        record m {
          tcp_sock = w.accepting;
          table = record { fds = r; accepted = m.table.accepted + 1 };
        },
        client_accepted,
        rw (place, p) refl,
        record { whole = omega (arith, l, t.whole); bounded = omega (arith, below) },
      )
  | inr over ↦ (m, table_full, rw over refl, t)
]

serve_tcp-table :
    {Address : Type 0} (e : Endian) (w : World Address) (m m' : Master) (act : Act Address)
    → serve_tcp e w m ≡ some (m', act)
    → m'.table ≡ m.table
unfolding serve_tcp
serve_tcp-table e w m m' act h = ground arith

pub serve_listen-bounds :
    {Address : Type 0} (w : World Address) (m m' : Master) (act : Act Address)
    → IsTable m.table
    → serve_listen w m ≡ some (m', act)
    → IsTable m'.table
serve_listen-bounds w m m' act t h =
    let (n, a, p, u) = serve_listen-IsTable w m t in
    subst (λ x. IsTable x.table) (ap (λ o. elim o [ none ↦ n | some r ↦ r.0 ]) (sym p ∙ h)) u

-- Every round that comes through keeps the bounds of the table of accepted sockets, whatever it
-- serves: the table stays the size of the array, and no more than five entries are in use.
pub turn-IsTable :
    {Address : Type 0} (e : Endian) (w : World Address) (s : Select) (m m' : Master)
    (act : Act Address)
    → IsTable m.table
    → turn e w s m ≡ some (m', act)
    → IsTable m'.table
turn-IsTable e w s m m' act t h = elim (turn-cases e w m m' act s h) [
  | unchanged q ↦ rw q t
  | locks b free q ↦ rw q t
  | accepts free k ↦ serve_listen-bounds w (with_lock false m) m' act t k
  | reads free k ↦ subst IsTable (sym (serve_tcp-table e w (with_lock false m) m' act k)) t
]
