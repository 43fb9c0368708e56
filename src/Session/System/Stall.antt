-- ===== src/Session/System/Stall.antt =====
-- What the filter of duplicates makes of a session whose peer goes on offering.
use ietf_anima_signaling_pro.Base.{
  ℕ, ◌≡◌, refl, sym, ◌∙◌, subst, Endian, List, [], ◌∷◌, ◌++◌, Option, none, some, true, false,
  arith, Every, append-Every, Every-append,
}
use ietf_anima_signaling_pro.Msg.{Msg}
use ietf_anima_signaling_pro.Pdu.{Written}
use ietf_anima_signaling_pro.Content.{Content, content_eq}
use ietf_anima_signaling_pro.Session.{Session, idle, queue_push, queue_pop}
use ietf_anima_signaling_pro.Session.Run.{Asa, Began, waited, dropped, begin}
use ietf_anima_signaling_pro.Session.Run.Filter.{begin_dropped}
use ietf_anima_signaling_pro.Session.Threads.{
  WaitThread, WaitTurn, wait_turn, EndThread, end_done, end_turn,
}
use ietf_anima_signaling_pro.Session.System.{
  System, log, after_begin, Step, pushes, begins, replies, exits, wait_turns, end_turns,
}
use ietf_anima_signaling_pro.Session.System.Types.{wait_turn-session, wait_turn-handed}

-- The filter takes the content for the one that the session took up last.
abbrev pub IsRepeat : Content → Content → Type 0
IsRepeat last c = content_eq c last ≡ some true

-- The session waits in IDLE, nothing is with the agent, every content in the queue is a repeat, and
-- no end thread counts any more.
pub record IsStalled (v : System) : Type 0 where
  pub running : v.exited ≡ false
  pub free : v.current ≡ none
  pub in_idle : v.session.cur_state ≡ idle
  pub repeats : Every (IsRepeat v.last) v.session.queue
  pub no_timer : Every (λ t. t ≡ end_done) v.enders

-- Nothing of what the peer can see, nor what decides about its messages, has changed.
abbrev pub Alike : System → System → Type 0
Alike v w = (w.sent ≡ v.sent) × (w.last ≡ v.last)

begin_waited :
    (e : Endian) (chunk chunk' : List ℕ) (s : Session) (last : Content)
    → s.queue ≡ []
    → begin e chunk chunk' s last ≡ some (waited, last)
unfolding begin queue_pop
begin_waited e chunk chunk' s last h = ground arith

begins_waited : (v : System) → IsStalled v → IsStalled (after_begin v waited v.last)
unfolding after_begin
begins_waited v i = record {
  running = i.running;
  free = refl;
  in_idle = i.in_idle;
  repeats = i.repeats;
  no_timer = i.no_timer;
}

begins_dropped :
    (v : System) (q : List Content)
    → IsStalled v
    → Every (IsRepeat v.last) q
    → IsStalled (after_begin v (dropped (record v.session { queue = q; idle_check = 1 })) v.last)
unfolding after_begin
begins_dropped v q i h = record {
  running = i.running;
  free = refl;
  in_idle = i.in_idle;
  repeats = h;
  no_timer = i.no_timer;
}

pair_eq :
    {A B : Type 0} {a c : A} {b d : B}
    → ◌≡◌ {A = Option (A × B)} (some (a, b)) (some (c, d))
    → (a ≡ c) × (b ≡ d)
pair_eq h = ground arith

end_turn_done : (s : Session) (t : EndThread) → t ≡ end_done → end_turn s t ≡ (s, end_done)
unfolding end_turn
end_turn_done s t h = rw h refl

module _ (e : Endian) (asa : Asa) where
  begins-IsStalled :
      (v : System) (chunk chunk' : List ℕ) (b : Began) (last : Content)
      → IsStalled v
      → begin e chunk chunk' v.session v.last ≡ some (b, last)
      → IsStalled (after_begin v b last) × Alike v (after_begin v b last)
  begins-IsStalled v chunk chunk' b last i h = by_queue v.session.queue refl
    where
      by_queue :
          (q : List Content)
          → v.session.queue ≡ q
          → IsStalled (after_begin v b last) × Alike v (after_begin v b last)
      by_queue [] k =
          let (p, q) = pair_eq (sym h ∙ begin_waited e chunk chunk' v.session v.last k) in
          rw (p, q) (begins_waited v i, unfold after_begin in (refl, refl))
      by_queue (c ∷ q) k =
          let all : Every (IsRepeat v.last) (c ∷ q) = subst (Every (IsRepeat v.last)) k i.repeats in
          let (p, r) =
            pair_eq (sym h ∙ begin_dropped e chunk chunk' v.session c v.last q k all.0) in
          rw (p, r) (begins_dropped v q i all.1, unfold after_begin in (refl, refl))

  pushes-IsStalled :
      (v : System) (c : Content)
      → IsStalled v
      → IsRepeat v.last c
      → IsStalled (record v { session = queue_push v.session c })
  unfolding queue_push
  pushes-IsStalled v c i h = record {
    running = i.running;
    free = i.free;
    in_idle = i.in_idle;
    repeats = append-Every (IsRepeat v.last) v.session.queue (c ∷ []) i.repeats (h, tt);
    no_timer = i.no_timer;
  }

  wait_turns-IsStalled :
      (v : System) (random : ℕ) (answer : Written) (t : WaitThread) (turn : WaitTurn)
      (ws : List WaitThread)
      → IsStalled v
      → wait_turn e random answer v.session t ≡ some turn
      → IsStalled (record v { session = turn.session; waits = ws; sent = log turn.handed v.sent })
        × (log turn.handed v.sent ≡ v.sent)
  wait_turns-IsStalled v random answer t turn ws i h = (
    record {
      running = i.running;
      free = i.free;
      in_idle = rw same i.in_idle;
      repeats = rw same i.repeats;
      no_timer = i.no_timer;
    },
    by_message turn.handed refl,
  )
    where
      same : turn.session ≡ v.session
      same = wait_turn-session e random answer v.session t turn h

      by_message : (m : Option Msg) → turn.handed ≡ m → log m v.sent ≡ v.sent
      by_message none k = refl
      by_message (some m) k =
          absurd
            (ground (arith, i.in_idle, wait_turn-handed e random answer v.session t turn m h k))

  end_turns-IsStalled :
      (v : System) (front back : List EndThread) (t : EndThread)
      → IsStalled v
      → v.enders ≡ front ++ t ∷ back
      → IsStalled (record v {
        session = (end_turn v.session t).0;
        enders = front ++ (end_turn v.session t).1 ∷ back;
      })
  end_turns-IsStalled v front back t i h =
      let all : Every (λ t. t ≡ end_done) (front ++ t ∷ back) =
        subst (Every (λ t. t ≡ end_done)) h i.no_timer in
      let (k, l) = Every-append (λ t. t ≡ end_done) front (t ∷ back) all in
      rw (end_turn_done v.session t l.0) (record {
        running = i.running;
        free = i.free;
        in_idle = i.in_idle;
        repeats = i.repeats;
        no_timer = append-Every (λ t. t ≡ end_done) front (end_done ∷ back) k (refl, l.1);
      })

  -- The contents that a step pushes are of a kind.
  abbrev pub PushesOnly : (Content → Type 0) → System → System → Type 0
  PushesOnly allowed v w =
      (c : Content) → w ≡ record v { session = queue_push v.session c } → allowed c

  Step-IsStalled :
      (v w : System)
      → IsStalled v
      → PushesOnly (IsRepeat v.last) v w
      → Step e asa v w
      → IsStalled w × Alike v w
  Step-IsStalled v w i a (pushes c q) = rw q (pushes-IsStalled v c i (a c q), (refl, refl))
  Step-IsStalled v w i a (begins chunk chunk' b last x c h q) =
      rw q (begins-IsStalled v chunk chunk' b last i h)
  Step-IsStalled v w i a (replies random answer o r c h q) = absurd (ground (arith, i.free))
  Step-IsStalled v w i a (exits c h q) = absurd (ground (arith, i.in_idle))
  Step-IsStalled v w i a (wait_turns random answer front back t turn p h q) =
      let (k, same) =
        wait_turns-IsStalled v random answer t turn (front ++ turn.thread ∷ back) i h in
      rw q (k, (same, refl))
  Step-IsStalled v w i a (end_turns front back t p q) =
      rw q (end_turns-IsStalled v front back t i p, (refl, refl))

  -- The states that `v` can reach while every content that is pushed is of a kind.
  pub data Fed (allowed : Content → Type 0) (v : System) : System → Type 0 where
    unfed : Fed allowed v v
    fed :
        {w u : System} → Fed allowed v w → Step e asa w u → PushesOnly allowed w u → Fed allowed v u

  pub Fed-IsStalled :
      (v w : System) → IsStalled v → Fed (IsRepeat v.last) v w → IsStalled w × Alike v w
  Fed-IsStalled v w i unfed = (i, (refl, refl))
  Fed-IsStalled v w i (fed {w = u} r st a) =
      let (k, (sent, last)) = Fed-IsStalled v u i r in
      let (l, (sent', last')) =
        Step-IsStalled u w k (λ c q. subst (λ x. IsRepeat x c) (sym last) (a c q)) st in
      (l, (sent' ∙ sent, last' ∙ last))
