-- ===== src/Session/System/Replies.antt =====
-- What a session ever hands to its socket.
use ietf_anima_signaling_pro.Base.{
  subst, ℕ, ◌≡◌, refl, sym, ap, ◌∙◌, inl, inr, Endian, List, Option, none, some, arith, Every,
}
use ietf_anima_signaling_pro.Msg.{Msg, wait_msg}
use ietf_anima_signaling_pro.Pdu.{Descriptor, Written}
use ietf_anima_signaling_pro.Content.{Content}
use ietf_anima_signaling_pro.Session.{Session, set_state, queue_push, new_session}
use ietf_anima_signaling_pro.Session.Run.{Asa, Began, begin, began_session, take_up}
use ietf_anima_signaling_pro.Session.Run.Filter.{begin-cases}
use ietf_anima_signaling_pro.Session.Threads.{
  WaitThread, WaitTurn, wait_turn, EndThread, counting, end_done, end_turn,
}
use ietf_anima_signaling_pro.Session.System.{
  System, start, log, after_begin, after_reply, Step, pushes, begins, replies, exits, wait_turns,
  end_turns, Reach, here, next,
}
use ietf_anima_signaling_pro.Session.System.Types.{wait_turn-session, wait_turn-sent}
use ietf_anima_signaling_pro.Session.System.Sends.{
  IsReply, wait_reply, send-SendsFor, reply-SendsFor,
}

take_up-session_id :
    (e : Endian) (chunk chunk' : List ℕ) (s : Session) (c : Content) (b : Began)
    → take_up e chunk chunk' s c ≡ some b
    → (began_session s b).session_id ≡ s.session_id
unfolding take_up set_state
take_up-session_id e chunk chunk' s c b h = ground arith

begin-session_id :
    (e : Endian) (chunk chunk' : List ℕ) (s : Session) (last : Content) (b : Began)
    (last' : Content)
    → begin e chunk chunk' s last ≡ some (b, last')
    → (began_session s b).session_id ≡ s.session_id
begin-session_id e chunk chunk' s last b last' h =
    elim (begin-cases e chunk chunk' s last b last' h) [
      | inl w ↦ rw w refl
      | inr (s', c, same, same_id, inl d) ↦ rw d same_id
      | inr (s', c, same, same_id, inr t) ↦
          ground (arith, take_up-session_id e chunk chunk' s' c b t)
    ]

end_turn-session_id : (s : Session) (t : EndThread) → (end_turn s t).0.session_id ≡ s.session_id
unfolding end_turn
end_turn-session_id s (counting total) = ground arith
end_turn-session_id s end_done = refl

wait_turn-session_id :
    (e : Endian) (random : ℕ) (w : Written) (s : Session) (t : WaitThread) (turn : WaitTurn)
    → wait_turn e random w s t ≡ some turn
    → turn.session.session_id ≡ s.session_id
wait_turn-session_id e random w s t turn h =
    ap (λ (x : Session). x.session_id) (wait_turn-session e random w s t turn h)

-- A session keeps its id.
pub Step-session_id :
    (e : Endian) (asa : Asa) (v w : System)
    → Step e asa v w
    → w.session.session_id ≡ v.session.session_id
unfolding after_begin after_reply queue_push
Step-session_id e asa v w (pushes c q) = rw q refl
Step-session_id e asa v w (begins chunk chunk' b last x free h q) =
    rw q (begin-session_id e chunk chunk' v.session v.last b last h)
Step-session_id e asa v w (replies random answer o r c h q) =
    rw q (reply-SendsFor e asa random answer v.session o r h).0
Step-session_id e asa v w (exits c s q) = rw q refl
Step-session_id e asa v w (wait_turns random answer front back t turn p h q) =
    rw q (wait_turn-session_id e random answer v.session t turn h)
Step-session_id e asa v w (end_turns front back t p q) = rw q (end_turn-session_id v.session t)

log-Every :
    (P : Msg → Type 0) (h : Option Msg) (ms : List Msg)
    → ((m : Msg) → h ≡ some m → P m)
    → Every P ms
    → Every P (log h ms)
log-Every P none ms f all = all
log-Every P (some m) ms f all = (f m refl, all)

module _ (e : Endian) (asa : Asa) where
  -- What a step adds to the messages is a reply of the session.
  Step-Every :
      (v w : System)
      → Step e asa v w
      → Every (IsReply v.session.session_id) v.sent
      → Every (IsReply v.session.session_id) w.sent
  unfolding after_begin after_reply
  Step-Every v w (pushes c q) all = rw q all
  Step-Every v w (begins chunk chunk' b last x free h q) all = rw q all
  Step-Every v w (replies random answer o r c h q) all = rw q (
      log-Every (IsReply v.session.session_id) r.handed v.sent
        (reply-SendsFor e asa random answer v.session o r h).1 all)
  Step-Every v w (exits c s q) all = rw q all
  Step-Every v w (wait_turns random answer front back t turn p h q) all =
      rw q (log-Every (IsReply v.session.session_id) turn.handed v.sent sealed all)
    where
      sealed : (m : Msg) → turn.handed ≡ some m → IsReply v.session.session_id m
      sealed m k =
          let (bits, r, sends, same) = wait_turn-sent e random answer v.session t turn m h k in
          (send-SendsFor random answer v.session bits 8 wait_msg r wait_reply sends).1 m same
  Step-Every v w (end_turns front back t p q) all = rw q all

  Reach-session_id : (v w : System) → Reach e asa v w → w.session.session_id ≡ v.session.session_id
  Reach-session_id v w here = refl
  Reach-session_id v w (next {w = u} r st) = Step-session_id e asa u w st ∙ Reach-session_id v u r

  Reach-Every :
      (v w : System)
      → Reach e asa v w
      → Every (IsReply v.session.session_id) v.sent
      → Every (IsReply v.session.session_id) w.sent
  Reach-Every v w here all = all
  Reach-Every v w (next {w = u} r st) all =
      let same = Reach-session_id v u r in
      subst (λ n. Every (IsReply n) w.sent) same
        (Step-Every u w st
          (subst (λ n. Every (IsReply n) u.sent) (sym same) (Reach-Every v u r all)))

-- Whatever its threads do in whatever order, and whatever is pushed to it, a session hands on only
-- messages of the types NEGO_MSG, NEGO_END_MSG and WAIT_MSG, each with its own session id in the
-- header, which is then in range, and with a payload of 1001 bytes.
pub Reach-IsReply :
    (e : Endian) (asa : Asa) (fd : Descriptor) (sid : ℕ) (c last : Content) (v : System)
    → Reach e asa (start fd sid c last) v
    → Every (IsReply sid) v.sent
unfolding start new_session queue_push
Reach-IsReply e asa fd sid c last v r = Reach-Every e asa (start fd sid c last) v r tt
