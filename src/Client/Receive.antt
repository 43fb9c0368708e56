-- ===== src/Client/Receive.antt =====
-- Client.cpp, `recv`, and the functions of Client_fsm_funcs.cpp that receive.
use ietf_anima_signaling_pro.Base.{
  ◌==◌, ℕ, if◌then◌else◌, Endian, List, [], ◌∷◌, strlen, Option, none, some, Bool, true, false,
}
use ietf_anima_signaling_pro.Errno.{
  Errno, ok, err, fault, success, timeout, select_err, msg_type_err, client_recv_nothing_err,
  client_unexcepted_state_err, client_recv_unexcepetd_msg_type_err,
  client_recv_nomatched_session_id_err,
}
use ietf_anima_signaling_pro.Msg.{
  discovery_msg, response_msg, request_msg, nego_msg, nego_end_msg, wait_msg, Decoded,
}
use ietf_anima_signaling_pro.Pdu.{Descriptor, recv_pdu}
use ietf_anima_signaling_pro.Client.{
  Client, ClientState, off, wait_response, wait, informed, ended, negoing, Arrival, select_failed,
  timed_out, datagram, Script, Run, done, pending, undefined, send,
}

-- What one wait for a message comes to: a code, and the message that was stored for the caller.
pub data InTime : Type 0 where
  in_time : Errno → Option Decoded → InTime
  -- An access that C leaves undefined.
  broken_off : InTime

-- `recv_in_time`; `stale` is what the buffer of `recv_pdu` held. A message of another session has
-- overwritten the caller's buffer when it is refused.
unfoldable pub recv_in_time : Endian → List ℕ → Descriptor → ℕ → Arrival → InTime
recv_in_time e stale none session_id a = broken_off
recv_in_time e stale (some fd) session_id select_failed = in_time select_err none
recv_in_time e stale (some fd) session_id timed_out = in_time timeout none
recv_in_time e stale (some fd) session_id (datagram r) = elim (recv_pdu e (some fd) r tt stale) [
  | fault ↦ broken_off
  | err code ↦ in_time code none
  | ok d ↦
      if d.0.session_id == session_id
      then in_time success (some d.0)
      else in_time client_recv_nomatched_session_id_err (some d.0)
]

abbrev pub keep : Option Decoded → Client → Client
keep none c = c
keep (some d) c = record c { received = some d }

abbrev pub go_to : ClientState → Client → Client
go_to state c = record c { cur_states = state }

-- The script with its arrivals replaced.
abbrev pub left : List Arrival → Script → Script
left arrivals s = record s { arrivals = arrivals }

-- `recv_in_WAIT`, on the arrivals that are left. A TIMEOUT goes to the caller.
unfoldable pub recv_in_wait : Endian → List ℕ → Client → Script → List Arrival → Run
recv_in_wait e stale c s [] = pending
recv_in_wait e stale c s (a ∷ rest) = elim (recv_in_time e stale c.udp_sock c.session_id a) [
  | broken_off ↦ undefined
  | in_time success (some d) ↦
      (let c' = record c { received = some d } in
        elim d.type [
          | request_msg ↦ done client_recv_unexcepetd_msg_type_err c' (left rest s)
          | wait_msg ↦ recv_in_wait e stale c' s rest
          | response_msg ↦ done success (go_to informed c') (left rest s)
          | nego_end_msg ↦ done success (go_to ended c') (left rest s)
          | discovery_msg ↦ done msg_type_err c' (left rest s)
          | nego_msg ↦ done msg_type_err c' (left rest s)
        ])
  | in_time code o ↦ done code (keep o c) (left rest s)
]

-- The case WAIT of `recv`, after `recv_in_WAIT`.
abbrev pub end_on_timeout : Run → Run
end_on_timeout (done timeout c s) = done client_recv_nothing_err (go_to ended c) s
end_on_timeout r = r

-- `recv_in_WAIT_RESPONSE` on the next arrival; `recv` is called in the state WAIT.
unfoldable pub recv_in_wait_response :
    Endian → List ℕ → Client → Script → Arrival → List Arrival → Run
unfolding recv_in_wait recv_in_time
recv_in_wait_response e stale c s a rest = elim (recv_in_time e stale c.udp_sock c.session_id a) [
  | broken_off ↦ undefined
  | in_time success (some d) ↦
      (let c' = record c { received = some d } in
        elim d.type [
          | discovery_msg ↦ done client_recv_unexcepetd_msg_type_err c' (left rest s)
          | wait_msg ↦ end_on_timeout (recv_in_wait e stale (go_to wait c') s rest)
          | response_msg ↦ done success (go_to informed c') (left rest s)
          | nego_end_msg ↦ done success (go_to ended c') (left rest s)
          | request_msg ↦ done msg_type_err c' (left rest s)
          | nego_msg ↦ done msg_type_err c' (left rest s)
        ])
  | in_time code o ↦ done code (keep o c) (left rest s)
]

abbrev pub is_wait_response : ClientState → Bool
is_wait_response wait_response = true
is_wait_response _ = false

-- Sending the last options again, after a TIMEOUT.
unfoldable pub resend : Client → Script → Run
resend c s = elim (strlen c.last_top_options) [
  | none ↦ undefined
  | some n ↦ send c s c.last_top_options n discovery_msg
]

unfoldable pub resend_on_timeout : Run → Run
unfolding resend
resend_on_timeout (done timeout c s) =
    if is_wait_response c.cur_states then resend c s else done timeout c s
resend_on_timeout r = r

abbrev pub if_waiting : Run → (Client → Script → Run) → Run
if_waiting (done code c s) k = if is_wait_response c.cur_states then k c s else done code c s
if_waiting pending k = pending
if_waiting undefined k = undefined

-- The loop of `recv` in WAIT_RESPONSE. As long as the state stays so, each round uses one arrival.
unfoldable pub recv_loop : Endian → List ℕ → Client → Script → List Arrival → Run
unfolding recv_in_wait_response resend_on_timeout
recv_loop e stale c s [] = pending
recv_loop e stale c s (a ∷ rest) =
    if_waiting (resend_on_timeout (recv_in_wait_response e stale c s a rest))
      (λ c' s'. recv_loop e stale c' s' rest)

-- `reset_try_times` after the loop.
abbrev pub after_loop : Run → Run
after_loop (done code c s) = done code (record c { try_times = 0 }) s
after_loop pending = pending
after_loop undefined = undefined

unfoldable pub recv : Endian → List ℕ → Client → Script → Run
unfolding recv_loop recv_in_wait
recv e stale c s = elim c.cur_states [
  | off ↦ done client_recv_unexcepetd_msg_type_err c s
  | wait_response ↦ after_loop (recv_loop e stale c s s.arrivals)
  | wait ↦ end_on_timeout (recv_in_wait e stale c s s.arrivals)
  | informed ↦ done client_recv_unexcepetd_msg_type_err c s
  | ended ↦ done client_recv_unexcepetd_msg_type_err c s
  | negoing ↦ done client_unexcepted_state_err c s
]
