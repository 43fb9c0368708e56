-- ===== src/Server/Life/Cycle.antt =====
-- The life of one session of a server.
use ietf_anima_signaling_pro.Base.{
  ◌∷◌, ℕ, ◌/◌, ◌^◌, ◌≤◌, ◌<◌, ◌≡◌, refl, sym, ap, ◌∙◌, ◌==◌, Endian, List, [], none, some, strlen,
  true, false, arith, Bool-cases, inl, inr,
}
use ietf_anima_signaling_pro.Errno.{success, ok}
use ietf_anima_signaling_pro.Msg.{nego_end_msg, Msg, Decoded, request_msg, max_session_id}
use ietf_anima_signaling_pro.Pdu.Carried.{Carries}
use ietf_anima_signaling_pro.Pdu.{wrote, sizeof_msg, read_pdu}
use ietf_anima_signaling_pro.GdnpOption.{
  parse_bits, ObjectiveOption, get_value, objective_parse_bits,
}
use ietf_anima_signaling_pro.Content.{Content, content_eq, assign}
use ietf_anima_signaling_pro.Session.{Session, processing, session_end, new_session, queue_push}
use ietf_anima_signaling_pro.Session.Run.{reply, Asa, handling, option_type_is_synchronization}
use ietf_anima_signaling_pro.Session.Run.States.{final}
use ietf_anima_signaling_pro.Session.Run.First.{begin-request}
use ietf_anima_signaling_pro.Session.Run.Verdict.{verdict, reply-verdict}
use ietf_anima_signaling_pro.Session.Threads.{testing}
use ietf_anima_signaling_pro.Session.System.{
  exits, start, after_begin, begins, replies, after_reply,
}
use ietf_anima_signaling_pro.Server.Sessions.Map.{lookup}
use ietf_anima_signaling_pro.Server.Turn.{Master, World}
use ietf_anima_signaling_pro.Server.Life.{
  Delivered, is_push, launch, with_local, Serving, content_of, System, received, hands_over, ends,
  Reach, here, next,
}
use ietf_anima_signaling_pro.Server.Life.Clearing.{Cleared, run_end-Cleared}
use ietf_anima_signaling_pro.Server.Life.Invariant.{IsServing}
use ietf_anima_signaling_pro.Server.Life.Work.{
  put_session, Holds, Holds-found, Holds-replace, received-Holds, received-launched, worked,
  with_local-same,
}

-- The session that has taken up the request `d`.
abbrev pub busy_session : Master → Decoded → Session
busy_session m d = record {
  tcp_sock = m.tcp_sock;
  session_id = d.session_id;
  queue = [];
  cur_state = processing;
  idle_check = 1;
}

module _ (Address : Type 0) (e : Endian) (asa : Asa) (m : Serving) (w : World Address) (d : Decoded)
    (i : IsServing m.master) (free : m.master.locked ≡ false)
    (absent : lookup d.session_id m.master.sessions ≡ none)
    (came : read_pdu e m.master.tcp_sock w.reading w.stale ≡ ok d) (first : d.type ≡ request_msg)
    (chunk : List ℕ) (last kept : Content) (o : ObjectiveOption) (n fd random : ℕ)
    (fresh : content_eq (content_of d) last ≡ some false)
    (copied : assign last (content_of d) ≡ some kept)
    (parsed : objective_parse_bits e chunk d.content ≡ some o)
    (text : strlen (get_value o.base) ≡ some n) where
  -- The threads of the session: at its start, with the option at the agent, and then.
  abbrev begun : System
  begun = start m.master.tcp_sock d.session_id (content_of d) last

  abbrev asked : System
  asked = record begun {
    session = busy_session m.master d;
    last = kept;
    current = some o;
    waits = testing 0 ∷ [];
  }

  abbrev over : Session
  over = record (busy_session m.master d) { cur_state = session_end }

  abbrev answered : Msg → System
  answered msg = record asked { session = over; current = none; sent = msg ∷ [] }

  abbrev exited_with : Msg → System
  exited_with msg = record (answered msg) { exited = true }

  abbrev created : Serving
  created = record {
    master = record m.master { sessions = (received m.master d).0 };
    local = launch (received m.master d).1 d.session_id begun m.local;
  }

  -- The server when the session's threads have come to `v` by a step.
  abbrev reached : Serving → System → Serving
  reached s v = record {
    master = put_session s.master d.session_id v.session;
    local = with_local d.session_id v s.local;
  }

  created-Holds : Holds d.session_id begun.session m.master.sessions created.master.sessions
  unfolding start
  created-Holds = received-Holds m.master d i first absent

  created_local : created.local d.session_id ≡ begun
  created_local =
      ap (λ (x : Delivered). launch x d.session_id begun m.local d.session_id)
        (received-launched m.master d i first absent)
      ∙ with_local-same d.session_id begun m.local

  -- The request is taken up: its option is with the agent.
  taken_up : Reach Address e asa m (reached created asked)
  unfolding after_begin start new_session queue_push is_push
  taken_up =
      worked Address e asa m created m.master.sessions d.session_id begun asked
        (next here (hands_over w d last free came refl refl)) created_local created-Holds
        (begins chunk [] (handling (busy_session m.master d) o) kept refl refl
          (begin-request e chunk [] (new_session m.master.tcp_sock d.session_id (content_of d))
            (content_of d) last kept [] o n refl refl first fresh copied parsed text)
          refl)
        refl

  -- A step keeps the session the only difference to the map before.
  reached-Holds :
      (s : Serving) (v u : System)
      → Holds d.session_id v.session m.master.sessions s.master.sessions
      → Holds d.session_id u.session m.master.sessions (reached s u).master.sessions
  reached-Holds s v u =
      Holds-replace d.session_id v.session u.session m.master.sessions s.master.sessions

  asked-Holds :
      Holds d.session_id asked.session m.master.sessions (reached created asked).master.sessions
  asked-Holds = reached-Holds created begun asked created-Holds

  -- The agent ends the negotiation on it, and the thread leaves its loop.
  abbrev told : Msg → Serving
  told msg = reached (reached created asked) (answered msg)

  abbrev left : Msg → Serving
  left msg = reached (told msg) (exited_with msg)

  left-Reach :
      (msg : Msg)
      → reply e asa random (wrote sizeof_msg) (busy_session m.master d) o
        ≡ some (record { session = over; code = success; handed = some msg; end_thread = false })
      → Reach Address e asa m (left msg)
  unfolding after_reply is_push start
  left-Reach msg replied =
      worked Address e asa m (told msg) m.master.sessions d.session_id (answered msg)
        (exited_with msg)
        (worked Address e asa m (reached created asked) m.master.sessions d.session_id asked
          (answered msg) taken_up (with_local-same d.session_id asked created.local) asked-Holds
          (replies random (wrote sizeof_msg) o
            (record { session = over; code = success; handed = some msg; end_thread = false }) refl
            replied refl)
          refl)
        (with_local-same d.session_id (answered msg) (reached created asked).local)
        (reached-Holds (reached created asked) asked (answered msg) asked-Holds)
        (exits refl refl refl) refl

  left-Holds : (msg : Msg) → Holds d.session_id over m.master.sessions (left msg).master.sessions
  left-Holds msg =
      reached-Holds (told msg) (answered msg) (exited_with msg)
        (reached-Holds (reached created asked) asked (answered msg) asked-Holds)

  back :
      (msg : Msg) (n : Master) (j : ℕ)
      → Cleared d.session_id (left msg).master n
      → lookup j n.sessions ≡ lookup j m.master.sessions
  back msg n j c = elim (Bool-cases (d.session_id == j)) [
    | inl same ↦
        ground (arith, c.entry j)
        ∙ sym (
            ap (λ k. lookup k m.master.sessions) {x = j} {y = d.session_id} (ground arith) ∙ absent)
    | inr other ↦ ground (arith, c.entry j, left-Holds msg j)
  ]

  -- The life of a session that ends at once. A request arrives for a server whose master is as it is
  -- at any time, with the lock free and no session of that id. Its content differs from what the
  -- memory of `last_content` holds, and can be copied there; it parses, by the block that `malloc`
  -- returns, as an option with a string as value, not of the type Synchronization; and the agent
  -- ends the negotiation on it. Then, if the byte that `distribute` copies past its arrays does no
  -- harm and the system takes the session's message whole, there is an order of steps in which the
  -- session is created, takes the request up, replies and leaves its loop, and clears itself away.
  -- The only message that its threads have sent is a NEGO_END_MSG of its id, in which a peer of the
  -- same byte order finds the verdict: `Decline` if the loop count of the request was 1 modulo 256,
  -- and `Accept` otherwise. The map of sessions is as it was before, the last accepted socket too,
  -- with the lock free, but half of the accepted sockets are watched no longer. The iterator that is
  -- erased is taken to lead on.
  pub session_cycle :
      m.master.tcp_sock ≡ some fd
      → d.session_id ≤ max_session_id
      → random < 2 ^ 32
      → option_type_is_synchronization o.type ≡ false
      → final asa o ≡ true
      → (m' : Serving) × (msg : Msg) × (content : List ℕ) × Reach Address e asa m m'
        × ((m'.local d.session_id).sent ≡ msg ∷ [])
        × Carries e msg nego_end_msg d.session_id content
        × ((block : List ℕ)
            → parse_bits e block content
              ≡ some (record { type = verdict o.loop_count; len = 0; value = none }))
        × ((j : ℕ) → lookup j m'.master.sessions ≡ lookup j m.master.sessions)
        × (m'.master.table.accepted ≡ m.master.table.accepted / 2)
        × (m'.master.tcp_sock ≡ m.master.tcp_sock)
        × (m'.master.locked ≡ false)
  session_cycle sock small random_small k stops =
      let (msg, content, replied, carried, _, verdict_read, _) =
        reply-verdict e asa random (busy_session m.master d) fd o random_small sock small k stops in
      let (m', ended, c) = run_end-Cleared over (left msg).master i.in_table in
      let kept_local = with_local-same d.session_id (exited_with msg) (told msg).local in
      (
        record { master = m'; local = (left msg).local },
        msg,
        content,
        next (left-Reach msg replied) (
            ends d.session_id over true over.tcp_sock
              (Holds-found d.session_id over m.master.sessions (left msg).master.sessions
                (left-Holds msg))
              (ap (λ (x : System). x.exited) kept_local) ended refl),
        ap (λ (x : System). x.sent) kept_local,
        carried,
        verdict_read,
        λ j. back msg m' j c,
        c.halved,
        c.others.2,
        c.others.3 ∙ free,
      )
