-- ===== src/Session/System.antt =====
-- A session with its threads: the server that pushes, the thread of `run`, wait threads and end
-- threads, whose steps interleave. Each half of an iteration of `run`, each call that takes a lock
-- from outside, and each turn of a timer thread is one step. That `send` and `set_state` read the
-- state without the lock, and act on it later in the same step, is not part of the relation.
pub mod Types
pub mod Halves
pub mod Invariant
pub mod Stall
pub mod Offers
pub mod Sends
pub mod Replies
use ietf_anima_signaling_pro.Base.{
  ℕ, ◌≡◌, Endian, List, [], ◌∷◌, ◌++◌, Option, none, some, Bool, true, false,
}
use ietf_anima_signaling_pro.Msg.{Msg}
use ietf_anima_signaling_pro.Pdu.{Descriptor, Written}
use ietf_anima_signaling_pro.GdnpOption.{ObjectiveOption}
use ietf_anima_signaling_pro.Content.{Content}
use ietf_anima_signaling_pro.Session.{
  Session, ServerState, session_end, queue_push, new_session, Sent,
}
use ietf_anima_signaling_pro.Session.Run.{
  Asa, Began, waited, dropped, refused, handling, misplaced, closing, began_session, begin, reply,
}
use ietf_anima_signaling_pro.Session.Threads.{
  WaitThread, testing, WaitTurn, wait_turn, EndThread, counting, end_turn,
}

pub record System : Type 0 where
  pub session : Session
  -- `last_content` of `run`.
  pub last : Content
  -- The option that is with the agent, between the two halves of an iteration.
  pub current : Option ObjectiveOption
  pub waits : List WaitThread
  pub enders : List EndThread
  -- What was handed to the socket, the newest first.
  pub sent : List Msg
  -- Whether the loop of `run` has ended.
  pub exited : Bool

-- A new session, over whatever the local variable `last_content` holds.
unfoldable pub start : Descriptor → ℕ → Content → Content → System
start tcp_sock session_id c last = record {
  session = new_session tcp_sock session_id c;
  last = last;
  current = none;
  waits = [];
  enders = [];
  sent = [];
  exited = false;
}

abbrev pub log : Option Msg → List Msg → List Msg
log none sent = sent
log (some m) sent = m ∷ sent

abbrev pub current_of : Began → Option ObjectiveOption
current_of (handling s o) = some o
current_of _ = none

-- A wait thread is created as soon as the state is PROCESSING.
abbrev pub waits_of : Began → List WaitThread → List WaitThread
waits_of (handling s o) waits = testing 0 ∷ waits
waits_of (misplaced s) waits = testing 0 ∷ waits
waits_of _ waits = waits

unfoldable pub after_begin : System → Began → Content → System
after_begin v b last = record v {
  session = began_session v.session b;
  last = last;
  current = current_of b;
  waits = waits_of b v.waits;
}

abbrev pub enders_of : Bool → List EndThread → List EndThread
enders_of true enders = counting 0 ∷ enders
enders_of false enders = enders

unfoldable pub after_reply : System → Sent → System
after_reply v r = record v {
  session = r.session;
  current = none;
  enders = enders_of r.end_thread v.enders;
  sent = log r.handed v.sent;
}

-- The steps, for one byte order and one agent. The test of the loop of `run` may lie before the
-- step of another thread, so `begins` asks nothing of the state.
pub data Step (e : Endian) (asa : Asa) (v w : System) : Type 0 where
  pushes : (c : Content) → w ≡ record v { session = queue_push v.session c } → Step e asa v w
  begins :
      (chunk chunk' : List ℕ) (b : Began) (last : Content)
      → v.exited ≡ false
      → v.current ≡ none
      → begin e chunk chunk' v.session v.last ≡ some (b, last)
      → w ≡ after_begin v b last
      → Step e asa v w
  replies :
      (random : ℕ) (answer : Written) (o : ObjectiveOption) (r : Sent)
      → v.current ≡ some o
      → reply e asa random answer v.session o ≡ some r
      → w ≡ after_reply v r
      → Step e asa v w
  exits :
      v.current ≡ none
      → v.session.cur_state ≡ session_end
      → w ≡ record v { exited = true }
      → Step e asa v w
  wait_turns :
      (random : ℕ) (answer : Written) (front back : List WaitThread) (t : WaitThread)
      (turn : WaitTurn)
      → v.waits ≡ front ++ t ∷ back
      → wait_turn e random answer v.session t ≡ some turn
      → w ≡ record v {
        session = turn.session;
        waits = front ++ turn.thread ∷ back;
        sent = log turn.handed v.sent;
      }
      → Step e asa v w
  end_turns :
      (front back : List EndThread) (t : EndThread)
      → v.enders ≡ front ++ t ∷ back
      → w ≡ record v {
        session = (end_turn v.session t).0;
        enders = front ++ (end_turn v.session t).1 ∷ back;
      }
      → Step e asa v w

pub data Reach (e : Endian) (asa : Asa) (v : System) : System → Type 0 where
  here : Reach e asa v v
  next : {w u : System} → Reach e asa v w → Step e asa w u → Reach e asa v u
