-- ===== src/Session/Run/States.antt =====
-- Where an iteration leaves the state of the session.
use ietf_anima_signaling_pro.Base.{
  ℕ, ◌≡◌, refl, Endian, List, Option, none, some, Bool, true, false, not, ◌&&◌, ◌||◌, ◌==◌,
  if◌then◌else◌, arith, >>=-eq-some, ◌>>=◌, strlen,
}
use ietf_anima_signaling_pro.Msg.{nego_msg}
use ietf_anima_signaling_pro.Pdu.{Written}
use ietf_anima_signaling_pro.Session.{Session, idle, session_end, Sent, send, set_cur_state}
use ietf_anima_signaling_pro.GdnpOption.{ObjectiveOption, get_value, objective_to_bits}
use ietf_anima_signaling_pro.Session.Run.{
  Asa, reply, send_value, option_type_is_synchronization, decrement_loop, answer_option, ended,
}

-- Whether the type, the agent's answer or the loop count ends the negotiation.
abbrev pub final : Asa → ObjectiveOption → Bool
final asa received =
    let o = decrement_loop received in
    let value = get_value o.base in
    option_type_is_synchronization o.type
    || (asa.asa_geq_fn (asa.asa_negotiate_result value) value || (o.loop_count == 0))

-- A NEGO_MSG sent in the state IDLE leaves the session in it, sent or not.
pub send-idle_nego :
    (random : ℕ) (w : Written) (s : Session) (buffer : List ℕ) (n : ℕ) (r : Sent)
    → s.cur_state ≡ idle
    → send random w s buffer n nego_msg ≡ some r
    → r.session.cur_state ≡ idle
unfolding send
send-idle_nego random w s buffer n r i h = ground arith

send_value-nego :
    (e : Endian) (random : ℕ) (w : Written) (s : Session) (o : ObjectiveOption) (v : List ℕ)
    (r : Sent)
    → s.cur_state ≡ idle
    → send_value e random w s o v nego_msg ≡ some r
    → r.session.cur_state ≡ idle
unfolding send_value
send_value-nego e random w s o v r i h =
    let (n, hn, h1) = >>=-eq-some (strlen v) _ h in
    let (bits, hb, h2) = >>=-eq-some (objective_to_bits e (answer_option o v n)) _ h1 in
    send-idle_nego random w s bits _ r i h2

ended-state :
    (m : Option Sent) (r : Sent) → (m >>= ended) ≡ some r → r.session.cur_state ≡ session_end
ended-state none r h = cc
ended-state (some x) r h = ground arith

branch-state :
    (sync geq over : Bool) (a b c : Option Sent) (r : Sent)
    → (b ≡ some r → r.session.cur_state ≡ idle)
    → (if sync then (a >>= ended) else if not geq && not over then b else (c >>= ended)) ≡ some r
    → r.session.cur_state ≡ (if sync || (geq || over) then session_end else idle)
branch-state true geq over a b c r f h = ended-state a r h
branch-state false true over a b c r f h = ended-state c r h
branch-state false false true a b c r f h = ended-state c r h
branch-state false false false a b c r f h = f h

-- The second half of an iteration, if it comes through, leaves the session in SESSION_END exactly
-- when the option is one of synchronization, or the agent accepts the value, or the decremented
-- loop count is 0, and in IDLE otherwise; neither a refused nor a failed send changes that.
pub reply-state :
    (e : Endian) (asa : Asa) (random : ℕ) (w : Written) (s : Session) (o : ObjectiveOption)
    (r : Sent)
    → reply e asa random w s o ≡ some r
    → r.session.cur_state ≡ (if final asa o then session_end else idle)
unfolding reply
reply-state e asa random w s o r h =
    branch-state _ _ _ _ _ _ r
      (send_value-nego e random w (set_cur_state s idle) (decrement_loop o) _ r refl) h
