-- ===== src/Session/Run/First.antt =====
-- The first message of a session.
use ietf_anima_signaling_pro.Base.{ℕ, ◌≡◌, refl, Endian, List, ◌∷◌, strlen, some, false}
use ietf_anima_signaling_pro.Msg.{request_msg}
use ietf_anima_signaling_pro.Content.{Content, content_eq, assign}
use ietf_anima_signaling_pro.GdnpOption.{ObjectiveOption, get_value, objective_parse_bits}
use ietf_anima_signaling_pro.Session.{Session, idle, processing, queue_pop, set_state}
use ietf_anima_signaling_pro.Session.Run.{
  handling, filter_duplicate, take_up, dispatch, begin, is_objective_msg,
}

-- A session in IDLE whose queue begins with a request that it has not taken up last, and whose
-- content parses as an objective option with a string as value, puts that option to the agent.
pub begin-request :
    (e : Endian) (chunk chunk' : List ℕ) (s : Session) (c last kept : Content) (q : List Content)
    (o : ObjectiveOption) (n : ℕ)
    → s.queue ≡ c ∷ q
    → s.cur_state ≡ idle
    → c.type ≡ request_msg
    → content_eq c last ≡ some false
    → assign last c ≡ some kept
    → objective_parse_bits e chunk c.body ≡ some o
    → strlen (get_value o.base) ≡ some n
    → begin e chunk chunk' s last
      ≡ some (handling (record s { queue = q; cur_state = processing; idle_check = 1 }) o, kept)
unfolding begin filter_duplicate queue_pop take_up set_state dispatch is_objective_msg
begin-request e chunk chunk' s c last kept q o n front state type fresh copied parsed text =
    rw (front, fresh, copied, state, type, parsed, text) refl
