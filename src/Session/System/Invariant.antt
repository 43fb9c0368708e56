-- ===== src/Session/System/Invariant.antt =====
-- What holds in every state that the threads of a session can reach.
use ietf_anima_signaling_pro.Base.{
  ℕ, ◌≡◌, ◌≢◌, refl, sym, ◌∙◌, ◌⊎◌, inl, inr, Bool-cases, Endian, List, [], ◌∷◌, Option, none, some,
  Bool, true, false, ◌||◌, arith, if◌then◌else◌,
}
use ietf_anima_signaling_pro.Msg.{MsgType, Msg, nego_end_msg, wait_msg, nego_msg}
use ietf_anima_signaling_pro.Msg.Codec.{type_of_msg}
use ietf_anima_signaling_pro.Pdu.{Descriptor, Written}
use ietf_anima_signaling_pro.Content.{Content}
use ietf_anima_signaling_pro.GdnpOption.{ObjectiveOption}
use ietf_anima_signaling_pro.Session.{
  Session, idle, processing, session_end, queue_push, new_session, Sent,
}
use ietf_anima_signaling_pro.Session.Run.{Asa, Began, begin, reply}
use ietf_anima_signaling_pro.Session.Run.States.{final, reply-state}
use ietf_anima_signaling_pro.Session.Threads.{
  WaitThread, WaitTurn, wait_turn, EndThread, counting, end_done, end_turn,
}
use ietf_anima_signaling_pro.Session.System.{
  System, start, log, after_begin, after_reply, Step, pushes, begins, replies, exits, wait_turns,
  end_turns, Reach, here, next,
}
use ietf_anima_signaling_pro.Session.System.Types.{reply-type, wait_turn-session, wait_turn-handed}
use ietf_anima_signaling_pro.Session.System.Halves.{begin-over, begin-busy}

abbrev is_end : Option MsgType → Bool
is_end (some nego_end_msg) = true
is_end _ = false

-- Whether a NEGO_END_MSG is among the messages.
abbrev pub has_end : List Msg → Bool
has_end [] = false
has_end (m ∷ ms) = is_end (type_of_msg m) || has_end ms

pub record Inv (v : System) : Type 0 where
  -- After a NEGO_END_MSG the session has ended, and no option is with the agent.
  pub over : has_end v.sent ≡ true → (v.current ≡ none) × (v.session.cur_state ≡ session_end)
  -- The session is PROCESSING only while an option is with the agent.
  pub busy : v.session.cur_state ≡ processing → v.current ≢ none

pub start-Inv : (fd : Descriptor) (sid : ℕ) (c last : Content) → Inv (start fd sid c last)
unfolding start new_session
start-Inv fd sid c last = record { over = λ h. cc; busy = λ h. cc }

-- A message of another type does not make an end.
has_end-log :
    (t : MsgType) (m : Msg) (ms : List Msg)
    → type_of_msg m ≡ some t
    → is_end (some t) ≡ false
    → has_end (m ∷ ms) ≡ has_end ms
has_end-log t m ms h k = rw (h, k) refl

module _ (e : Endian) (asa : Asa) where
  pushes-Inv :
      (v : System) (c : Content) → Inv v → Inv (record v { session = queue_push v.session c })
  unfolding queue_push
  pushes-Inv v c i = record { over = i.over; busy = i.busy }

  begins-Inv :
      (v : System) (chunk chunk' : List ℕ) (b : Began) (last : Content)
      → v.current ≡ none
      → begin e chunk chunk' v.session v.last ≡ some (b, last)
      → Inv v
      → Inv (after_begin v b last)
  unfolding after_begin
  begins-Inv v chunk chunk' b last none_current h i = record {
    over = λ k. begin-over e chunk chunk' v.session v.last b last (i.over k).1 h;
    busy = begin-busy e chunk chunk' v.session v.last b last (λ p. i.busy p none_current) h;
  }

  not_over :
      (v : System) (o : ObjectiveOption) → Inv v → v.current ≡ some o → has_end v.sent ≡ false
  not_over v o i c = elim (Bool-cases (has_end v.sent)) [
    | inl h ↦ absurd (ground (arith, i.over h))
    | inr h ↦ h
  ]

  reply-over :
      (v : System) (random : ℕ) (answer : Written) (o : ObjectiveOption) (r : Sent)
      → v.current ≡ some o
      → reply e asa random answer v.session o ≡ some r
      → Inv v
      → has_end (log r.handed v.sent) ≡ true
      → r.session.cur_state ≡ session_end
  reply-over v random answer o r c h i k = elim (Bool-cases (final asa o)) [
    | inl stops ↦ reply-state e asa random answer v.session o r h ∙ rw stops refl
    | inr goes_on ↦ absurd (by_message r.handed refl goes_on k)
  ]
    where
      by_message :
          (m : Option Msg) → r.handed ≡ m → final asa o ≡ false → has_end (log m v.sent) ≡ true → ⊥
      by_message none e' g p = ground (arith, not_over v o i c)
      by_message (some m) e' g p = ground (
        arith,
        not_over v o i c,
        has_end-log nego_msg m v.sent (reply-type e asa random answer v.session o r m g h e') refl,
      )

  replies-Inv :
      (v : System) (random : ℕ) (answer : Written) (o : ObjectiveOption) (r : Sent)
      → v.current ≡ some o
      → reply e asa random answer v.session o ≡ some r
      → Inv v
      → Inv (after_reply v r)
  unfolding after_reply
  replies-Inv v random answer o r c h i = record {
    over = λ k. (refl, reply-over v random answer o r c h i k);
    busy = λ p.
        absurd (not_busy (final asa o) (sym (reply-state e asa random answer v.session o r h) ∙ p));
  }
    where
      not_busy : (b : Bool) → (if b then session_end else idle) ≡ processing → ⊥
      not_busy true q = cc
      not_busy false q = cc

  -- A turn of a wait thread that sends does so while PROCESSING, so not after the end.
  wait_turns-Inv :
      (v : System) (random : ℕ) (answer : Written) (t : WaitThread) (turn : WaitTurn)
      (ws : List WaitThread)
      → wait_turn e random answer v.session t ≡ some turn
      → Inv v
      → Inv (record v { session = turn.session; waits = ws; sent = log turn.handed v.sent })
  wait_turns-Inv v random answer t turn ws h i = record {
    over = λ k. rw same (i.over (by_message turn.handed refl k));
    busy = λ p. i.busy (rw same at p);
  }
    where
      same : turn.session ≡ v.session
      same = wait_turn-session e random answer v.session t turn h

      by_message :
          (m : Option Msg) → turn.handed ≡ m → has_end (log m v.sent) ≡ true → has_end v.sent ≡ true
      by_message none e' p = p
      by_message (some m) e' p =
          sym (
            has_end-log wait_msg m v.sent
              (wait_turn-handed e random answer v.session t turn m h e').1 refl)
          ∙ p

  end_turn-state :
      (s : Session) (t : EndThread)
      → ((end_turn s t).0.cur_state ≡ s.cur_state) ⊎ ((end_turn s t).0.cur_state ≡ session_end)
  unfolding end_turn
  end_turn-state s (counting total) = ground arith
  end_turn-state s end_done = inl refl

  end_turns-Inv :
      (v : System) (t : EndThread) (ts : List EndThread)
      → Inv v
      → Inv (record v { session = (end_turn v.session t).0; enders = ts })
  end_turns-Inv v t ts i = record {
    over = λ k. ((i.over k).0, ground (arith, end_turn-state v.session t, i.over k));
    busy = λ p. i.busy (ground (arith, end_turn-state v.session t));
  }

  Step-Inv : (v w : System) → Step e asa v w → Inv v → Inv w
  Step-Inv v w (pushes c q) i = rw q (pushes-Inv v c i)
  Step-Inv v w (begins chunk chunk' b last x c h q) i =
      rw q (begins-Inv v chunk chunk' b last c h i)
  Step-Inv v w (replies random answer o r c h q) i = rw q (replies-Inv v random answer o r c h i)
  Step-Inv v w (exits c s q) i = rw q (record { over = i.over; busy = i.busy })
  Step-Inv v w (wait_turns random answer front back t turn p h q) i =
      rw q (wait_turns-Inv v random answer t turn _ h i)
  Step-Inv v w (end_turns front back t p q) i = rw q (end_turns-Inv v t _ i)

  -- Every state that a new session can reach, by any interleaving of its threads, is one in which
  -- a session that has handed on a NEGO_END_MSG has ended with no option at the agent, and a
  -- session that is PROCESSING has an option there. The threads interleave by half iterations of
  -- `run`, pushes, and turns of the timers.
  pub Reach-Inv :
      (fd : Descriptor) (sid : ℕ) (c last : Content) (v : System)
      → Reach e asa (start fd sid c last) v
      → Inv v
  Reach-Inv fd sid c last v here = start-Inv fd sid c last
  Reach-Inv fd sid c last v (next {w} r st) = Step-Inv w v st (Reach-Inv fd sid c last w r)
