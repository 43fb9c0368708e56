-- ===== src/Session.antt =====
-- ServerSession.h and ServerSession.cpp: one negotiation session of the server.
pub mod Run
pub mod Threads
pub mod System
use ietf_anima_signaling_pro.Base.{
  ℕ, List, [], ◌∷◌, ◌++◌, Option, none, some, Bool, true, false, if◌then◌else◌,
}
use ietf_anima_signaling_pro.Errno.{
  Errno, success, is_success, error, msg_type_err, server_send_unexcepted_msg_type_err,
  server_recv_unexcepted_msg_type_err,
}
use ietf_anima_signaling_pro.Msg.{
  MsgType, Msg, discovery_msg, response_msg, request_msg, nego_msg, nego_end_msg, wait_msg,
}
use ietf_anima_signaling_pro.Pdu.{Descriptor, Written, Sending, write_pdu}
use ietf_anima_signaling_pro.Content.{Content}

pub data ServerState : Type 0 where
  idle processing session_end : ServerState

pub ServerState-discrete : Discrete ServerState
ServerState-discrete = hlevel

-- The fields that the session's threads share, each behind its lock.
pub record Session : Type 0 where
  pub tcp_sock : Descriptor
  pub session_id : ℕ
  pub queue : List Content
  pub cur_state : ServerState
  pub idle_check : ℕ

unfoldable pub queue_push : Session → Content → Session
queue_push s c = record s { queue = s.queue ++ c ∷ [] }

-- The front item and the session without it; `none` is `front` of an empty queue.
unfoldable pub queue_pop : Session → Option (Content × Session)
queue_pop s = elim s.queue [ [] ↦ none | c ∷ rest ↦ some (c, record s { queue = rest }) ]

unfoldable pub queue_empty : Session → Bool
queue_empty s = elim s.queue [ [] ↦ true | c ∷ rest ↦ false ]

abbrev pub set_cur_state : Session → ServerState → Session
set_cur_state s state = record s { cur_state = state }

-- The constructor.
unfoldable pub new_session : Descriptor → ℕ → Content → Session
unfolding queue_push
new_session tcp_sock session_id c =
    queue_push
      (record {
        tcp_sock = tcp_sock;
        session_id = session_id;
        queue = [];
        cur_state = idle;
        idle_check = 0;
      })
      c

-- The two `switch`es of `set_state`.
accept_msg : ServerState → MsgType → Session → Session × Errno
accept_msg idle request_msg s = (set_cur_state s processing, success)
accept_msg idle nego_msg s = (set_cur_state s processing, success)
accept_msg idle nego_end_msg s = (set_cur_state s session_end, success)
accept_msg idle _ s = (s, server_recv_unexcepted_msg_type_err)
accept_msg processing type s = (s, error)
accept_msg session_end type s = (s, error)

unfoldable pub set_state : Session → MsgType → Session × Errno
unfolding accept_msg
set_state s type = accept_msg s.cur_state type s

-- How `send` ends: the session, the code, the message handed to the system, and whether a thread
-- that runs `end_thread_handler` was created.
pub record Sent : Type 0 where
  pub session : Session
  pub code : Errno
  pub handed : Option Msg
  pub end_thread : Bool

-- `send` without a call of `write_pdu`.
abbrev unsent : Session → Errno → Option Sent
unsent s e = some (record { session = s; code = e; handed = none; end_thread = false })

-- After `write_pdu` of a NEGO_MSG that succeeded: the state, the flag and the thread.
after_nego : Session → Sending → Sent
after_nego s r = record {
  session = if is_success r.code then record s { cur_state = idle; idle_check = 0 } else s;
  code = r.code;
  handed = r.handed;
  end_thread = is_success r.code;
}

-- After `write_pdu` of a NEGO_END_MSG.
after_nego_end : Session → Sending → Sent
after_nego_end s r = record {
  session = if is_success r.code then set_cur_state s session_end else s;
  code = r.code;
  handed = r.handed;
  end_thread = false;
}

-- After `write_pdu` of a WAIT_MSG.
after_wait : Session → Sending → Sent
after_wait s r = record { session = s; code = r.code; handed = r.handed; end_thread = false }

abbrev map_sending : (Sending → Sent) → Option Sending → Option Sent
map_sending f none = none
map_sending f (some r) = some (f r)

-- The two `switch`es of `send`; `write` is the call of `write_pdu`.
send_in : ServerState → MsgType → Option Sending → Session → Option Sent
unfolding after_nego after_nego_end after_wait
send_in idle nego_msg write s = map_sending (after_nego s) write
send_in idle nego_end_msg write s = map_sending (after_nego_end s) write
send_in idle _ write s = unsent s msg_type_err
send_in processing wait_msg write s = map_sending (after_wait s) write
send_in processing _ write s = unsent s msg_type_err
send_in session_end type write s = unsent s server_send_unexcepted_msg_type_err

-- `none`: the buffer has fewer bytes than `buffer_size`.
unfoldable pub send : ℕ → Written → Session → List ℕ → ℕ → MsgType → Option Sent
unfolding send_in
send random w s buffer buffer_size type =
    send_in s.cur_state type (write_pdu s.tcp_sock random w buffer buffer_size type s.session_id) s
