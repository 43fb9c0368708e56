-- ===== src/Session/System/Sends.antt =====
-- What a call of `send` and a reply hand to the socket.
use mathlib.Core.Option.{some-injective}
use ietf_anima_signaling_pro.Base.{
  >>=-eq-some, subst, ◌>>=◌, ℕ, ◌≡◌, refl, Endian, List, Option, none, some, Bool, true, false, not,
  ◌&&◌, ◌==◌, if◌then◌else◌, strlen,
}
use ietf_anima_signaling_pro.Msg.{MsgType, Msg, nego_msg, nego_end_msg, wait_msg}
use ietf_anima_signaling_pro.Msg.Sealed.{IsSealed, encode-IsSealed}
use ietf_anima_signaling_pro.Pdu.{Written}
use ietf_anima_signaling_pro.GdnpOption.{ObjectiveOption, objective_to_bits, to_bits, get_value}
use ietf_anima_signaling_pro.Session.{Session, Sent, send, set_cur_state, idle}
use ietf_anima_signaling_pro.Session.Run.{
  Asa, reply, send_value, send_verdict, answer_option, decrement_loop, ended,
  option_type_is_synchronization,
}
use ietf_anima_signaling_pro.Session.System.Types.{send-encoded_as, send-session_id}

-- The types that a server's session sends.
pub data IsReplyType : MsgType → Type 0 where
  value_reply : IsReplyType nego_msg
  last_reply : IsReplyType nego_end_msg
  wait_reply : IsReplyType wait_msg

-- A message of one of these types, of the session `sid`, in the protocol's size.
abbrev pub IsReply : ℕ → Msg → Type 0
IsReply sid m = (t : MsgType) × IsReplyType t × IsSealed t sid m

-- A call of `send` keeps the session's id, and hands on nothing but a reply.
abbrev pub SendsFor : ℕ → Session → Option Msg → Type 0
SendsFor sid s handed = (s.session_id ≡ sid) × ((m : Msg) → handed ≡ some m → IsReply sid m)

pub send-SendsFor :
    (random : ℕ) (w : Written) (s : Session) (buffer : List ℕ) (n : ℕ) (t : MsgType) (r : Sent)
    → IsReplyType t
    → send random w s buffer n t ≡ some r
    → SendsFor s.session_id r.session r.handed
send-SendsFor random w s buffer n t r a h = (
  send-session_id random w s buffer n t r h,
  λ m k. (
    t,
    a,
    encode-IsSealed random t s.session_id buffer n m
        (send-encoded_as random w s buffer n t r m h k),
  ),
)

ended-SendsFor :
    (sid : ℕ) (x : Option Sent) (r : Sent)
    → ((y : Sent) → x ≡ some y → SendsFor sid y.session y.handed)
    → (x >>= ended) ≡ some r
    → SendsFor sid r.session r.handed
ended-SendsFor sid none r f h = cc
ended-SendsFor sid (some y) r f h =
    subst (λ (z : Sent). SendsFor sid z.session z.handed) (some-injective _ r h) (f y refl)

-- The branches of `reply`.
branch-SendsFor :
    (sid : ℕ) (sync goes_on : Bool) (a b c : Option Sent) (r : Sent)
    → ((y : Sent) → a ≡ some y → SendsFor sid y.session y.handed)
    → ((y : Sent) → b ≡ some y → SendsFor sid y.session y.handed)
    → ((y : Sent) → c ≡ some y → SendsFor sid y.session y.handed)
    → (if sync then (a >>= ended) else if goes_on then b else (c >>= ended)) ≡ some r
    → SendsFor sid r.session r.handed
branch-SendsFor sid true g a b c r f k l h = ended-SendsFor sid a r f h
branch-SendsFor sid false true a b c r f k l h = k r h
branch-SendsFor sid false false a b c r f k l h = ended-SendsFor sid c r l h

send_value-SendsFor :
    (e : Endian) (random : ℕ) (w : Written) (s : Session) (o : ObjectiveOption) (v : List ℕ)
    (t : MsgType) (r : Sent)
    → IsReplyType t
    → send_value e random w s o v t ≡ some r
    → SendsFor s.session_id r.session r.handed
unfolding send_value
send_value-SendsFor e random w s o v t r a h =
    let (n, hn, h1) = >>=-eq-some (strlen v) _ h in
    let (bits, hb, h2) = >>=-eq-some (objective_to_bits e (answer_option o v n)) _ h1 in
    send-SendsFor random w s bits _ t r a h2

send_verdict-SendsFor :
    (e : Endian) (random : ℕ) (w : Written) (s : Session) (o : ObjectiveOption) (r : Sent)
    → send_verdict e random w s o ≡ some r
    → SendsFor s.session_id r.session r.handed
unfolding send_verdict
send_verdict-SendsFor e random w s o r h =
    let (bits, hb, h1) = >>=-eq-some (to_bits e _) _ h in
    send-SendsFor random w s bits _ nego_end_msg r last_reply h1

pub reply-SendsFor :
    (e : Endian) (asa : Asa) (random : ℕ) (w : Written) (s : Session) (o : ObjectiveOption)
    (r : Sent)
    → reply e asa random w s o ≡ some r
    → SendsFor s.session_id r.session r.handed
unfolding reply
reply-SendsFor e asa random w s received r h =
    branch-SendsFor s.session_id (option_type_is_synchronization o.type)
      (not (asa.asa_geq_fn v (get_value o.base)) && not (o.loop_count == 0))
      (send_value e random w s' o v nego_end_msg) (send_value e random w s' o v nego_msg)
      (send_verdict e random w s' o) r
      (λ y. send_value-SendsFor e random w s' o v nego_end_msg y last_reply)
      (λ y. send_value-SendsFor e random w s' o v nego_msg y value_reply)
      (λ y. send_verdict-SendsFor e random w s' o y) h
  where
    o : ObjectiveOption
    o = decrement_loop received

    v : List ℕ
    v = asa.asa_negotiate_result (get_value o.base)

    s' : Session
    s' = set_cur_state s idle
