-- ===== src/Session/System/Types.antt =====
-- The type of a message that a session hands to its socket.
use ietf_anima_signaling_pro.Base.{
  >>=-eq-some, ℕ, ◌≡◌, refl, ◌∙◌, sym, Endian, List, Option, none, some, false, arith, strlen,
}
use ietf_anima_signaling_pro.Errno.{ok}
use ietf_anima_signaling_pro.Msg.{MsgType, Msg, nego_msg, wait_msg, encode}
use ietf_anima_signaling_pro.Msg.Codec.{type_of_msg, encode-type}
use ietf_anima_signaling_pro.Pdu.{Written, Sending}
use ietf_anima_signaling_pro.Pdu.Types.{write_pdu-encoded_as}
use ietf_anima_signaling_pro.GdnpOption.{ObjectiveOption, objective_to_bits, to_bits}
use ietf_anima_signaling_pro.Session.{
  Session, ServerState, idle, processing, set_cur_state, Sent, send, send_in,
}
use ietf_anima_signaling_pro.Session.Run.{Asa, reply, send_value, answer_option, decrement_loop}
use ietf_anima_signaling_pro.Session.Run.States.{final}
use ietf_anima_signaling_pro.Session.Run.Reply.{reply-goes_on}
use ietf_anima_signaling_pro.Session.Threads.{
  WaitThread, testing, asleep, wait_done, WaitTurn, wait_turn, wait_option, send_wait,
}

send_in-handed :
    (st : ServerState) (t : MsgType) (write : Option Sending) (s : Session) (r : Sent) (m : Msg)
    → send_in st t write s ≡ some r
    → r.handed ≡ some m
    → (x : Sending) × (write ≡ some x) × (x.handed ≡ some m)
unfolding send_in
send_in-handed st t none s r m h k = ground arith
send_in-handed st t (some x) s r m h k = (x, refl, ground arith)

-- A message that `send` hands on is what `encode` makes of its arguments and the session's id.
pub send-encoded_as :
    (random : ℕ) (w : Written) (s : Session) (buffer : List ℕ) (n : ℕ) (t : MsgType) (r : Sent)
    (m : Msg)
    → send random w s buffer n t ≡ some r
    → r.handed ≡ some m
    → encode random t s.session_id buffer n ≡ ok m
unfolding send
send-encoded_as random w s buffer n t r m h k =
    let (x, wrote, same) = send_in-handed s.cur_state t _ s r m h k in
    write_pdu-encoded_as s.tcp_sock random w buffer n t s.session_id x m wrote same

send_in-session_id :
    (st : ServerState) (t : MsgType) (write : Option Sending) (s : Session) (r : Sent)
    → send_in st t write s ≡ some r
    → r.session.session_id ≡ s.session_id
unfolding send_in
send_in-session_id st t write s r h = ground arith

pub send-session_id :
    (random : ℕ) (w : Written) (s : Session) (buffer : List ℕ) (n : ℕ) (t : MsgType) (r : Sent)
    → send random w s buffer n t ≡ some r
    → r.session.session_id ≡ s.session_id
unfolding send
send-session_id random w s buffer n t r h = send_in-session_id s.cur_state t _ s r h

-- A message that `send` hands on has the type that `send` was called with.
pub send-type :
    (random : ℕ) (w : Written) (s : Session) (buffer : List ℕ) (n : ℕ) (t : MsgType) (r : Sent)
    (m : Msg)
    → send random w s buffer n t ≡ some r
    → r.handed ≡ some m
    → type_of_msg m ≡ some t
send-type random w s buffer n t r m h k =
    encode-type random t s.session_id buffer n m (send-encoded_as random w s buffer n t r m h k)

send_value-type :
    (e : Endian) (random : ℕ) (w : Written) (s : Session) (o : ObjectiveOption) (v : List ℕ)
    (t : MsgType) (r : Sent) (m : Msg)
    → send_value e random w s o v t ≡ some r
    → r.handed ≡ some m
    → type_of_msg m ≡ some t
unfolding send_value
send_value-type e random w s o v t r m h k =
    let (n, hn, h1) = >>=-eq-some (strlen v) _ h in
    let (bits, hb, h2) = >>=-eq-some (objective_to_bits e (answer_option o v n)) _ h1 in
    send-type random w s bits _ t r m h2 k

-- A reply that goes on carries a NEGO_MSG.
pub reply-type :
    (e : Endian) (asa : Asa) (random : ℕ) (w : Written) (s : Session) (o : ObjectiveOption)
    (r : Sent) (m : Msg)
    → final asa o ≡ false
    → reply e asa random w s o ≡ some r
    → r.handed ≡ some m
    → type_of_msg m ≡ some nego_msg
reply-type e asa random w s o r m goes_on h k =
    send_value-type e random w (set_cur_state s idle) (decrement_loop o) _ nego_msg r m
      (sym (reply-goes_on e asa random w s o goes_on) ∙ h) k

send_wait-type :
    (e : Endian) (random : ℕ) (w : Written) (s : Session) (turn : WaitTurn) (m : Msg)
    → send_wait e random w s ≡ some turn
    → turn.handed ≡ some m
    → type_of_msg m ≡ some wait_msg
unfolding send_wait
send_wait-type e random w s turn m h k =
    let (bits, hb, h1) = >>=-eq-some (to_bits e (wait_option e)) _ h in
    let (r, hr, h2) = >>=-eq-some (send random w s bits 8 wait_msg) _ h1 in
    send-type random w s bits 8 wait_msg r m hr (ground arith)

send_in-wait_state :
    (write : Option Sending) (s : Session) (r : Sent)
    → send_in s.cur_state wait_msg write s ≡ some r
    → r.session ≡ s
unfolding send_in
send_in-wait_state write s r h = ground arith

send_wait-session :
    (e : Endian) (random : ℕ) (w : Written) (s : Session) (turn : WaitTurn)
    → send_wait e random w s ≡ some turn
    → turn.session ≡ s
unfolding send_wait send
send_wait-session e random w s turn h =
    let (bits, hb, h1) = >>=-eq-some (to_bits e (wait_option e)) _ h in
    let (r, hr, h2) = >>=-eq-some (send random w s bits 8 wait_msg) _ h1 in
    ground (arith, send_in-wait_state _ s r hr)

-- A turn of a wait thread leaves the session as it is, and hands on a message only while the
-- session is PROCESSING, a WAIT_MSG.
pub wait_turn-session :
    (e : Endian) (random : ℕ) (w : Written) (s : Session) (t : WaitThread) (turn : WaitTurn)
    → wait_turn e random w s t ≡ some turn
    → turn.session ≡ s
unfolding wait_turn
wait_turn-session e random w s (testing total) turn h = ground arith
wait_turn-session e random w s (asleep total) turn h =
    ground (arith, send_wait-session e random w s turn)
wait_turn-session e random w s wait_done turn h = ground arith

pub wait_turn-handed :
    (e : Endian) (random : ℕ) (w : Written) (s : Session) (t : WaitThread) (turn : WaitTurn)
    (m : Msg)
    → wait_turn e random w s t ≡ some turn
    → turn.handed ≡ some m
    → (s.cur_state ≡ processing) × (type_of_msg m ≡ some wait_msg)
unfolding wait_turn
wait_turn-handed e random w s (testing total) turn m h k = ground arith
wait_turn-handed e random w s (asleep total) turn m h k =
    ground (arith, send_wait-type e random w s turn m)
wait_turn-handed e random w s wait_done turn m h k = ground arith

send_wait-sent :
    (e : Endian) (random : ℕ) (w : Written) (s : Session) (turn : WaitTurn) (m : Msg)
    → send_wait e random w s ≡ some turn
    → turn.handed ≡ some m
    → (bits : List ℕ) × (r : Sent) × (send random w s bits 8 wait_msg ≡ some r)
      × (r.handed ≡ some m)
unfolding send_wait
send_wait-sent e random w s turn m h k =
    let (bits, hb, h1) = >>=-eq-some (to_bits e (wait_option e)) _ h in
    let (r, hr, h2) = >>=-eq-some (send random w s bits 8 wait_msg) _ h1 in
    (bits, r, hr, ground arith)

-- What a turn of a wait thread hands on went through `send`.
pub wait_turn-sent :
    (e : Endian) (random : ℕ) (w : Written) (s : Session) (t : WaitThread) (turn : WaitTurn)
    (m : Msg)
    → wait_turn e random w s t ≡ some turn
    → turn.handed ≡ some m
    → (bits : List ℕ) × (r : Sent) × (send random w s bits 8 wait_msg ≡ some r)
      × (r.handed ≡ some m)
unfolding wait_turn
wait_turn-sent e random w s (testing total) turn m h k = absurd (ground arith)
wait_turn-sent e random w s (asleep total) turn m h k =
    send_wait-sent e random w s turn m (ground arith) k
wait_turn-sent e random w s wait_done turn m h k = absurd (ground arith)
