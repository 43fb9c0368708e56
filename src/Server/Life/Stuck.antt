-- ===== src/Server/Life/Stuck.antt =====
-- A server whose lock is never given back.
use ietf_anima_signaling_pro.Base.{
  ℕ, ◌≡◌, refl, ◌∙◌, ◌==◌, Endian, none, some, Bool, true, false, arith, Bool-cases, inl, inr,
}
use ietf_anima_signaling_pro.Errno.{Errno}
use ietf_anima_signaling_pro.Pdu.{Descriptor}
use ietf_anima_signaling_pro.Session.{Session}
use ietf_anima_signaling_pro.Session.Run.{Asa}
use ietf_anima_signaling_pro.Server.Sessions.{SessionMap}
use ietf_anima_signaling_pro.Server.Sessions.Map.{lookup, replace, lookup-replace}
use ietf_anima_signaling_pro.Server.Turn.{
  Master, World, Select, ready, unserved, blocked, with_lock, watchable, is_ready, turn,
}
use ietf_anima_signaling_pro.Server.Turn.Cases.{turn-cases, unchanged, locks, accepts, reads}
use ietf_anima_signaling_pro.Server.Turn.Lock.{turn-older_socket}
use ietf_anima_signaling_pro.Server.Setup.{listen_negotiate}
use ietf_anima_signaling_pro.Server.Life.{
  Serving, System, Step, turns, hands_over, works, ends, listens, Reach, here, next,
}
use ietf_anima_signaling_pro.Server.Life.Clearing.{run_end-Ended}

-- The lock is held, the server has its datagram socket, and no session with the id `j` is there.
record IsStuck (fd j : ℕ) (m : Master) : Type 0 where
  held : m.locked ≡ true
  open_udp : m.udp_sock ≡ some fd
  no_session : lookup j m.sessions ≡ none

turn-blocked :
    {Address : Type 0} (e : Endian) (w : World Address) (s : Select) (fd j : ℕ) (m : Master)
    → IsStuck fd j m
    → turn e w s m ≡ some (m, blocked)
unfolding turn
turn-blocked e w s fd j m i = rw (i.open_udp, i.held) refl

-- A session that is put in place of another brings no new key.
replace-none :
    (id j : ℕ) (s t : Session) (m : SessionMap)
    → lookup id m ≡ some t
    → lookup j m ≡ none
    → lookup j (replace id s m) ≡ none
replace-none id j s t m h k = elim (Bool-cases (id == j)) [
  | inl same ↦ absurd (ground (arith, h, k))
  | inr other ↦ ground (arith, lookup-replace id j s t m h)
]

listen_negotiate-locked :
    (sock : Descriptor) (bound listening : Bool) (code : Errno) (fd j : ℕ) (m m' : Master)
    → IsStuck fd j m
    → listen_negotiate sock bound listening m ≡ some (code, m')
    → IsStuck fd j m'
unfolding listen_negotiate
listen_negotiate-locked none bound listening code fd j m m' i h = record {
  held = ground (arith, i.held);
  open_udp = ground (arith, i.open_udp);
  no_session = ground (arith, i.no_session);
}
listen_negotiate-locked (some sock) bound listening code fd j m m' i h =
    absurd (ground (arith, i.held))

module _ (Address : Type 0) (e : Endian) (asa : Asa) (fd j : ℕ) where
  Step-IsStuck :
      (m n : Serving) → Step Address e asa m n → IsStuck fd j m.master → IsStuck fd j n.master
  Step-IsStuck m n (turns w s act h _) i = elim (turn-cases e w m.master n.master act s h) [
    | unchanged q ↦ rw q i
    | locks b free q ↦ absurd (ground (arith, i.held))
    | accepts free k ↦ absurd (ground (arith, i.held))
    | reads free k ↦ absurd (ground (arith, i.held))
  ]
  Step-IsStuck m n (hands_over w d last free came q _) i = absurd (ground (arith, i.held))
  Step-IsStuck m n (works id v u found own st other q _) i = rw q (record {
    held = i.held;
    open_udp = i.open_udp;
    no_session = replace-none id j u.session v.session m.master.sessions found i.no_session;
  })
  Step-IsStuck m n (ends id s survives closed found over h _) i =
      let d = run_end-Ended survives s m.master n.master closed h in
      record {
        held = d.same_lock ∙ i.held;
        open_udp = d.same_udp ∙ i.open_udp;
        no_session = ground (arith, d.entry j, i.no_session);
      }
  Step-IsStuck m n (listens sock bound listening code h _) i =
      listen_negotiate-locked sock bound listening code fd j m.master n.master i h

  Reach-IsStuck :
      (m n : Serving) → IsStuck fd j m.master → Reach Address e asa m n → IsStuck fd j n.master
  Reach-IsStuck m n i here = i
  Reach-IsStuck m n i (next {n = k} r st) = Step-IsStuck k n st (Reach-IsStuck m k i r)

-- A server that meets a client on an older socket never serves anybody again. A round in which
-- neither the datagram socket, nor the listening one, nor the socket that was accepted last is
-- ready, so that `select` can only have reported an older one, keeps `fdset_lock`. From then on,
-- whatever the threads of the sessions and the program do, every further round waits for the lock
-- and leaves the master as it is, and no session is created.
pub older_socket-stops :
    (Address : Type 0) (e : Endian) (asa : Asa) (w w' : World Address) (r : ℕ → Bool) (s : Select)
    (m : Master) (local : ℕ → System) (n : Serving) (fd j : ℕ)
    → m.udp_sock ≡ some fd
    → m.locked ≡ false
    → watchable m.table.accepted m.table.fds ≡ true
    → r fd ≡ false
    → is_ready m.listen_sock r ≡ false
    → is_ready m.tcp_sock r ≡ false
    → lookup j m.sessions ≡ none
    → Reach Address e asa (record { master = with_lock true m; local = local }) n
    → (turn e w (ready r) m ≡ some (with_lock true m, unserved))
      × (turn e w' s n.master ≡ some (n.master, blocked))
      × (lookup j n.master.sessions ≡ none)
older_socket-stops Address e asa w w' r s m local n fd j udp free fine no_udp no_listen no_tcp
      absent k =
    let i =
      Reach-IsStuck Address e asa fd j (record { master = with_lock true m; local = local }) n
        (record { held = refl; open_udp = udp; no_session = absent }) k in
    (
      (turn-older_socket e w w' r s m fd udp free fine no_udp no_listen no_tcp).0,
      turn-blocked e w' s fd j n.master i,
      i.no_session,
    )
