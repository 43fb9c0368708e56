-- ===== src/Client.antt =====
-- Client.h, Client.cpp and Client_fsm_funcs.cpp: the state machine by which a client discovers a
-- server. The calls of the system answer from a script: what is still to be written and to arrive.
pub mod Receive
pub mod Retry
pub mod Response
pub mod Settled
pub mod Discovery
use ietf_anima_signaling_pro.Base.{
  ℕ, ◌+◌, ltb, if◌then◌else◌, List, [], ◌∷◌, memcpy, zeros, Option, none, some, Bool, true, false,
}
use ietf_anima_signaling_pro.Errno.{
  Errno, success, addr_err, client_send_unexcepted_msg_type_err, client_recv_nothing_err,
  client_unexcepted_state_err, is_success,
}
use ietf_anima_signaling_pro.Msg.{
  MsgType, Msg, discovery_msg, response_msg, request_msg, nego_msg, nego_end_msg, wait_msg, Decoded,
  max_string_length,
}
use ietf_anima_signaling_pro.Pdu.{Descriptor, Written, Reading, Sending, send_pdu}

pub data ClientState : Type 0 where
  off wait_response wait informed ended negoing : ClientState

-- `MAX_TRY_TIMES`.
abbrev pub max_try_times : ℕ
max_try_times = 5

-- The members, and, in `received`, what the caller's `buffer` and `type` hold in a discovery. The
-- signed `loop_count` and `flag` are kept as their 32 bits.
pub record Client : Type 0 where
  pub udp_sock : Descriptor
  pub session_id : ℕ
  pub cur_states : ClientState
  pub try_times : ℕ
  pub last_top_options : List ℕ
  pub received : Option Decoded
  -- The text that went into `negoAddr`.
  pub nego_addr : List ℕ
  pub tcp_sock : Descriptor
  pub loop_count : ℕ
  pub flag : ℕ
  pub buffer_nego_obj : List ℕ
  -- The seconds that SO_RCVTIMEO of the socket is set to.
  pub recv_timeout : ℕ

-- The constructor. `last_top_options` is what the memory of `lastTopOptions` holds, and `nego_addr` the
-- text "ff02::1".
unfoldable pub new_client : List ℕ → Client
new_client last_top_options = record {
  udp_sock = none;
  session_id = 0;
  cur_states = off;
  try_times = 0;
  last_top_options = last_top_options;
  received = none;
  nego_addr = 102 ∷ 102 ∷ 48 ∷ 50 ∷ 58 ∷ 58 ∷ 49 ∷ 0 ∷ [];
  tcp_sock = none;
  loop_count = 5;
  flag = 0;
  buffer_nego_obj = zeros max_string_length;
  recv_timeout = 0;
}

-- What `select`, and `recvfrom` after it, answer.
pub data Arrival : Type 0 where
  select_failed timed_out : Arrival
  datagram : Reading → Arrival

-- What is to come, each write with the random part of its message, and what was handed to the
-- system, the newest first.
pub record Script : Type 0 where
  pub writes : List (ℕ × Written)
  pub arrivals : List Arrival
  pub handed : List Msg

-- How an operation of the client ends: with its code, not yet (the script is at its end), or with
-- an access that C leaves undefined.
pub data Run : Type 0 where
  done : Errno → Client → Script → Run
  pending : Run
  undefined : Run

-- `if(rtnval == SUCCESS)` after a call.
abbrev pub on_success : Run → (Client → Script → Run) → Run
on_success (done success c s) k = k c s
on_success r k = r

abbrev pub log : Option Msg → List Msg → List Msg
log none handed = handed
log (some m) handed = m ∷ handed

abbrev pub is_addr_err : Errno → Bool
is_addr_err addr_err = true
is_addr_err _ = false

-- `send_pdu` to `serverAddr`, over and over while it answers ADDR_ERR. What `bind` does between is
-- not looked at.
unfoldable pub send_until_bound :
    Client → List ℕ → ℕ → List (ℕ × Written) → List Arrival → List Msg → Run
send_until_bound c buffer n [] arrivals handed = pending
send_until_bound c buffer n ((random, w) ∷ writes) arrivals handed =
    elim (send_pdu c.udp_sock random w buffer n discovery_msg c.session_id tt) [
      | none ↦ undefined
      | some s ↦
          if is_addr_err s.0.code
          then send_until_bound c buffer n writes arrivals (log s.0.handed handed)
          else done s.0.code c
              (record { writes = writes; arrivals = arrivals; handed = log s.0.handed handed })
    ]

unfoldable pub send_discover : Client → Script → List ℕ → ℕ → MsgType → Run
unfolding send_until_bound
send_discover c s buffer n discovery_msg = send_until_bound c buffer n s.writes s.arrivals s.handed
send_discover c s buffer n _ = done client_send_unexcepted_msg_type_err c s

-- `send_pdu` once, of a message that is no discovery.
unfoldable pub send_once : Client → Script → List ℕ → ℕ → MsgType → Run
send_once c s buffer n type = elim s.writes [
  | [] ↦ pending
  | w ∷ writes ↦ elim (send_pdu c.udp_sock w.0 w.1 buffer n type c.session_id tt) [
    | none ↦ undefined
    | some r ↦ done r.0.code c (record s { writes = writes; handed = log r.0.handed s.handed })
  ]
]

unfoldable pub store_last_options : Client → Script → List ℕ → ℕ → ClientState → Run
store_last_options c s buffer n next = elim (memcpy (zeros max_string_length) buffer n) [
  | none ↦ undefined
  | some block ↦ done success (record c { last_top_options = block; cur_states = next }) s
]

-- A type that the `switch` has no case for leaves the result without a value.
unfoldable pub send_in_informed : Client → Script → List ℕ → ℕ → MsgType → Run
unfolding send_once store_last_options
send_in_informed c s buffer n request_msg =
    on_success (send_once c s buffer n request_msg)
      (λ c' s'. store_last_options c' s' buffer n wait_response)
send_in_informed c s buffer n response_msg = done client_send_unexcepted_msg_type_err c s
send_in_informed c s buffer n wait_msg = done client_send_unexcepted_msg_type_err c s
send_in_informed c s buffer n nego_end_msg =
    on_success (send_once c s buffer n nego_end_msg)
      (λ c' s'. done success (record c' { cur_states = ended }) s')
send_in_informed c s buffer n _ = undefined

-- `increase_try_times` after a call, whatever its code.
abbrev pub counted : Run → Run
counted (done code c s) = done code (record c { try_times = c.try_times + 1 }) s
counted pending = pending
counted undefined = undefined

unfoldable pub send : Client → Script → List ℕ → ℕ → MsgType → Run
unfolding send_discover send_in_informed store_last_options
send c s buffer n type = elim c.cur_states [
  | off ↦
      on_success (send_discover c s buffer n type)
        (λ c' s'. store_last_options c' s' buffer n wait_response)
  | wait_response ↦
      if ltb c.try_times max_try_times
      then counted (send_discover c s buffer n type)
      else done client_recv_nothing_err (record c { cur_states = ended }) s
  | wait ↦ done client_send_unexcepted_msg_type_err c s
  | informed ↦ send_in_informed c s buffer n type
  | ended ↦ done client_send_unexcepted_msg_type_err c s
  | negoing ↦ done client_unexcepted_state_err c s
]
