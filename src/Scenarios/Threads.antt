-- ===== src/Scenarios/Threads.antt =====
-- A session with its threads: a request is taken up and accepted.
use ietf_anima_signaling_pro.Base.{
  ◌≡◌, refl, [], ◌∷◌, zeros, strcpy, strlen, strcmp_eq, strncpy, little, some, false, arith, memcpy,
}
use ietf_anima_signaling_pro.Errno.{success}
use ietf_anima_signaling_pro.Msg.{encode, Msg, nego_msg, nego_end_msg, request_msg}
use ietf_anima_signaling_pro.Msg.Codec.{encoded}
use ietf_anima_signaling_pro.Pdu.{write_pdu, wrote, sizeof_msg}
use ietf_anima_signaling_pro.GdnpOption.{
  option_type_code, value_field, to_bits, ObjectiveOption, negotiation, objective_parse_bits,
  get_value, copy_value, option_type_of,
}
use ietf_anima_signaling_pro.GdnpOption.Roundtrip.{with_text}
use ietf_anima_signaling_pro.Content.{Content, content_eq, assign}
use ietf_anima_signaling_pro.Session.{
  set_cur_state, send, Sent, Session, processing, idle, session_end, new_session, queue_push,
  queue_pop, set_state,
}
use ietf_anima_signaling_pro.Session.Run.{
  send_verdict, default_asa, handling, begin, reply, option_type_is_synchronization, decrement_loop,
  take_up,
}
use ietf_anima_signaling_pro.Session.System.{
  System, start, begins, replies, Reach, here, next, after_begin, after_reply,
}
use ietf_anima_signaling_pro.Session.System.Invariant.{Inv, Reach-Inv}
use ietf_anima_signaling_pro.Session.Threads.{testing, counting, end_done}
use ietf_anima_signaling_pro.Session.Threads.Waits.{wait_seconds, wait_seconds-count}
use ietf_anima_signaling_pro.Session.Threads.Timers.{end_seconds, end_seconds-idle}

abbrev pub request : Content
request = record { type = request_msg; body = 6 ∷ 0 ∷ 1 ∷ 0 ∷ 0 ∷ 4 ∷ 53 ∷ 0 ∷ [] }

abbrev pub garbage : Content
garbage = record { type = nego_msg; body = 9 ∷ 9 ∷ 9 ∷ [] }

abbrev remembered_request : Content
remembered_request = record { type = request_msg; body = 6 ∷ 0 ∷ 9 ∷ [] }

abbrev busy_session : Session
busy_session = record {
  tcp_sock = some 7;
  session_id = 66;
  queue = [];
  cur_state = processing;
  idle_check = 1;
}

abbrev offer : ObjectiveOption
offer = with_text negotiation 4 0 (53 ∷ []) (0 ∷ [])

abbrev pub started : System
started = start (some 7) 66 request garbage

request_taken_up :
    begin little (0 ∷ 0 ∷ []) (0 ∷ 0 ∷ []) started.session garbage
    ≡ some (handling busy_session offer, remembered_request)
unfolding start new_session queue_push queue_pop begin content_eq assign strcpy strcmp_eq take_up
    set_state objective_parse_bits get_value copy_value option_type_of strlen strncpy
request_taken_up = refl

abbrev offered : System
offered = after_begin started (handling busy_session offer) remembered_request

offer_reached : Reach little default_asa started offered
unfolding start
offer_reached = next here (
    begins (0 ∷ 0 ∷ []) (0 ∷ 0 ∷ []) (handling busy_session offer) remembered_request refl refl
      request_taken_up refl)

abbrev verdict_msg : Msg
verdict_msg = encoded 5 nego_end_msg 66 (1 ∷ 0 ∷ 0 ∷ 0 ∷ []) 4

abbrev verdict_sent : Sent
verdict_sent = record {
  session = record busy_session { cur_state = session_end };
  code = success;
  handed = some verdict_msg;
  end_thread = false;
}

offer_answered :
    reply little default_asa 5 (wrote sizeof_msg) busy_session offer ≡ some verdict_sent
unfolding reply option_type_is_synchronization decrement_loop send_verdict to_bits value_field send
    write_pdu encode memcpy zeros option_type_code
offer_answered = refl

abbrev pub answered : System
answered = after_reply offered verdict_sent

pub answer_reached : Reach little default_asa started answered
unfolding start after_begin
answer_reached =
    next offer_reached (replies 5 (wrote sizeof_msg) offer verdict_sent refl offer_answered refl)

Reach-Inv_example : Inv answered
Reach-Inv_example = Reach-Inv little default_asa (some 7) 66 request garbage answered answer_reached

-- Twenty seconds of a wait thread: two messages.
wait_seconds-count_example :
    wait_seconds little 5 (wrote sizeof_msg) 20 busy_session (testing 0) ≡ some (testing 4, 2)
wait_seconds-count_example =
    wait_seconds-count little 5 busy_session 7 refl refl (omega arith) 20 0 (omega arith)

abbrev unattended : Session
unattended = record busy_session { cur_state = idle; idle_check = 0 }

end_seconds-idle_example :
    end_seconds 20 unattended (counting 0) ≡ (set_cur_state unattended session_end, end_done)
end_seconds-idle_example = end_seconds-idle 20 unattended (λ h. cc)
