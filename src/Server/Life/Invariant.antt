-- ===== src/Server/Life/Invariant.antt =====
-- What holds of the master of a server at any time.
use mathlib.Core.Option.{some-injective}
use ietf_anima_signaling_pro.Errno.{Errno, Outcome, ok, err, fault}
use ietf_anima_signaling_pro.Server.Life.Clearing.{Ended, run_end-Ended}
use ietf_anima_signaling_pro.Base.{
  ◌≡◌, refl, sym, ap, ◌∙◌, subst, Endian, List, [], none, some, Bool, false, arith, length,
  >>=-eq-some, Option-cases,
}
use ietf_anima_signaling_pro.Msg.{Decoded}
use ietf_anima_signaling_pro.Pdu.{Descriptor, read_pdu}
use ietf_anima_signaling_pro.Content.{Content}
use ietf_anima_signaling_pro.Session.{Session}
use ietf_anima_signaling_pro.Session.Run.{Asa}
use ietf_anima_signaling_pro.Session.System.Replies.{Step-session_id}
use ietf_anima_signaling_pro.Server.Sessions.{distribute}
use ietf_anima_signaling_pro.Server.Sessions.Map.{lookup, replace}
use ietf_anima_signaling_pro.Server.Sessions.Delivery.{deliver, hand_over-Delivers}
use ietf_anima_signaling_pro.Server.Descriptors.{max_clients_num}
use ietf_anima_signaling_pro.Server.Turn.{
  Master, World, Select, Act, turn, with_lock, fd_put, serve_listen, serve_tcp,
}
use ietf_anima_signaling_pro.Server.Turn.Cases.{turn-cases, unchanged, locks, accepts, reads}
use ietf_anima_signaling_pro.Server.Turn.Lock.{IsTable, turn-IsTable}
use ietf_anima_signaling_pro.Server.Setup.{
  IfAddr, interface_names, new_master, server_init, listen_negotiate,
}
use ietf_anima_signaling_pro.Server.Life.{
  Serving, received, Step, turns, hands_over, works, ends, listens, Reach, here, next,
}
use ietf_anima_signaling_pro.Server.Life.Keys.{
  IsMap, deliver-keyed, entry-IsMap, replace-Delivers, distribute-IsMap,
}

serve_listen-sessions :
    {Address : Type 0} (w : World Address) (m m' : Master) (act : Act Address)
    → serve_listen w m ≡ some (m', act)
    → m'.sessions ≡ m.sessions
unfolding serve_listen
serve_listen-sessions w m m' act h =
    ground (arith, Option-cases (fd_put m.table.accepted w.accepting m.table.fds))

serve_tcp-IsMap :
    {Address : Type 0} (e : Endian) (w : World Address) (m m' : Master) (act : Act Address)
    → IsMap m.sessions
    → serve_tcp e w m ≡ some (m', act)
    → IsMap m'.sessions
unfolding serve_tcp
serve_tcp-IsMap e w m m' act i h = by_outcome (read_pdu e m.tcp_sock w.reading w.stale) refl
  where
    by_outcome :
        (o : Outcome Decoded) → read_pdu e m.tcp_sock w.reading w.stale ≡ o → IsMap m'.sessions
    by_outcome fault q = absurd (ground arith)
    by_outcome (err code) q = subst IsMap {x = m.sessions} {y = m'.sessions} (ground arith) i
    by_outcome (ok d) q =
        let (r, made, same) =
          >>=-eq-some
            (distribute w.stack m.tcp_sock m.sessions d.session_id d.content d.data_size d.type) _
            (rw (q, serve_tcp) at h) in
        subst IsMap {x = r.0} {y = m'.sessions} (ground arith) (
          distribute-IsMap w.stack m.tcp_sock m.sessions d.session_id d.content d.data_size d.type r
            i made)

-- The map of a new master.
pub new_master-IsMap : IsMap []
new_master-IsMap = record { rising = tt; keyed = λ id s h. absurd (unfold lookup in cc) }

Ended-IsMap : (s : Session) (m m' : Master) → Ended s m m' → IsMap m.sessions → IsMap m'.sessions
Ended-IsMap s m m' d i =
    entry-IsMap m.sessions m'.sessions s.session_id none i
      (record { entry = d.entry; rising = d.in_order i.rising }) (λ t h. cc)

listen_negotiate-rest :
    (sock : Descriptor) (bound listening : Bool) (code : Errno) (m m' : Master)
    → listen_negotiate sock bound listening m ≡ some (code, m')
    → (m'.sessions ≡ m.sessions) × (m'.table ≡ m.table)
unfolding listen_negotiate
listen_negotiate-rest none bound listening code m m' h = ground arith
listen_negotiate-rest (some fd) bound listening code m m' h = ground arith

server_init-rest :
    (sock : Descriptor) (bound : Bool) (code : Errno) (m m' : Master)
    → server_init sock bound m ≡ some (code, m')
    → (m'.sessions ≡ m.sessions) × (m'.table ≡ m.table)
unfolding server_init
server_init-rest none bound code m m' h = ground arith
server_init-rest (some fd) bound code m m' h = ground arith

-- What holds of the master of a server at any time.
pub record IsServing (m : Master) : Type 0 where
  pub in_table : IsTable m.table
  pub in_map : IsMap m.sessions

turn-IsMap :
    {Address : Type 0} (e : Endian) (w : World Address) (s : Select) (m m' : Master)
    (act : Act Address)
    → IsMap m.sessions
    → turn e w s m ≡ some (m', act)
    → IsMap m'.sessions
turn-IsMap e w s m m' act i h = elim (turn-cases e w m m' act s h) [
  | unchanged q ↦ rw q i
  | locks b free q ↦ rw q i
  | accepts free k ↦ subst IsMap (sym (serve_listen-sessions w (with_lock false m) m' act k)) i
  | reads free k ↦ serve_tcp-IsMap e w (with_lock false m) m' act i k
]

received-IsMap : (m : Master) (d : Decoded) → IsMap m.sessions → IsMap (received m d).0
received-IsMap m d i =
    let c : Content = record { type = d.type; body = d.content } in
    entry-IsMap m.sessions (received m d).0 d.session_id
      (deliver m.tcp_sock d.session_id c (lookup d.session_id m.sessions)).0 i
      (hand_over-Delivers m.tcp_sock m.sessions d.session_id c i.rising).1
      (λ s.
        deliver-keyed m.tcp_sock d.session_id c (lookup d.session_id m.sessions) s
          (i.keyed d.session_id))

module _ (Address : Type 0) (e : Endian) (asa : Asa) where
  Step-IsServing :
      (m n : Serving) → Step Address e asa m n → IsServing m.master → IsServing n.master
  Step-IsServing m n (turns w s act h _) i = record {
    in_table = turn-IsTable e w s m.master n.master act i.in_table h;
    in_map = turn-IsMap e w s m.master n.master act i.in_map h;
  }
  Step-IsServing m n (hands_over w d last free came q _) i =
      rw q (record { in_table = i.in_table; in_map = received-IsMap m.master d i.in_map })
  Step-IsServing m n (works id v u found own st other q _) i = rw q (record {
    in_table = i.in_table;
    in_map =
        entry-IsMap m.master.sessions (replace id u.session m.master.sessions) id (some u.session)
          i.in_map (replace-Delivers m.master.sessions id u.session v.session i.in_map found)
          (λ s h.
            ap (λ (x : Session). x.session_id) (sym (some-injective _ _ h))
            ∙ Step-session_id e asa v u st
            ∙ i.in_map.keyed id v.session found);
  })
  Step-IsServing m n (ends id s survives closed found over h _) i =
      let d = run_end-Ended survives s m.master n.master closed h in
      record {
        in_table = d.in_table i.in_table;
        in_map = Ended-IsMap s m.master n.master d i.in_map;
      }
  Step-IsServing m n (listens sock bound listening code h _) i =
      let (same, same_table) =
        listen_negotiate-rest sock bound listening code m.master n.master h in
      record {
        in_table = subst IsTable (sym same_table) i.in_table;
        in_map = subst IsMap (sym same) i.in_map;
      }

  pub Reach-from :
      (m n : Serving) → IsServing m.master → Reach Address e asa m n → IsServing n.master
  Reach-from m n i here = i
  Reach-from m n i (next {n = k} r st) = Step-IsServing k n st (Reach-from m k i r)

  -- Whatever the thread of `run`, the threads of the sessions and the program do to the master of
  -- a server that has been constructed and initialised, in whatever order, with each half of an
  -- iteration, each turn of a timer and each call of the server taken as one step: the table of accepted
  -- sockets keeps the size of its array with at most five entries in use, the keys of the map of
  -- sessions stay in strict order, and each is the id of its session.
  pub Reach-IsServing :
      (fds : List Descriptor) (entries : List IfAddr) (m0 : Master) (m n : Serving)
      (sock : Descriptor) (bound : Bool) (code : Errno)
      → length fds ≡ max_clients_num
      → new_master fds (some entries) ≡ some m0
      → server_init sock bound m0 ≡ some (code, m.master)
      → Reach Address e asa m n
      → IsServing n.master
  unfolding new_master
  Reach-IsServing fds entries m0 m n sock bound code whole made initialised r =
      let (names, found, built) = >>=-eq-some (interface_names entries) _ made in
      let (same, same_table) = server_init-rest sock bound code m0 m.master initialised in
      let i = subst IsServing (some-injective _ m0 built) (record {
        in_table = record { whole = whole; bounded = omega arith };
        in_map = new_master-IsMap;
      }) in
      Reach-from m n
        (record {
          in_table = subst IsTable (sym same_table) i.in_table;
          in_map = subst IsMap (sym same) i.in_map;
        })
        r
