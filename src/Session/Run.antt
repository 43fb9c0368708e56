-- ===== src/Session/Run.antt =====
-- `ServerSession::run`: one item of the queue, up to the call of the ASA and from it on.
pub mod Filter
pub mod States
pub mod First
pub mod Reply
pub mod Verdict
pub mod Synchronized
use ietf_anima_signaling_pro.Base.{
  ◌>>=◌, ℕ, ◌+◌, ◌%◌, ◌==◌, if◌then◌else◌, u8, u16, Endian, List, strlen, Option, none, some, Bool,
  true, false, not, ◌&&◌,
}
use ietf_anima_signaling_pro.Errno.{is_success}
use ietf_anima_signaling_pro.Msg.{MsgType, Msg, request_msg, nego_msg, nego_end_msg}
use ietf_anima_signaling_pro.Pdu.{Written}
use ietf_anima_signaling_pro.Content.{Content, content_eq, assign}
use ietf_anima_signaling_pro.GdnpOption.{
  OptionType, GdnpOption, ObjectiveOption, accept, decline, synchronization, get_value, to_bits,
  objective_to_bits, parse_bits, objective_parse_bits, option_len_except_value,
  objective_len_except_value,
}
use ietf_anima_signaling_pro.Session.{
  Session, ServerState, idle, processing, session_end, set_cur_state, queue_empty, queue_pop,
  set_state, Sent, send,
}

-- What the autonomic service agent provides by overriding two methods of `ServerMaster`.
pub record Asa : Type 0 where
  pub asa_geq_fn : List ℕ → List ℕ → Bool
  pub asa_negotiate_result : List ℕ → List ℕ

-- The bodies of the methods in Server.h, which an agent that overrides nothing has.
abbrev pub default_asa : Asa
default_asa = record { asa_geq_fn = λ a b. true; asa_negotiate_result = λ v. v }

unfoldable pub option_type_is_synchronization : OptionType → Bool
option_type_is_synchronization synchronization = true
option_type_is_synchronization _ = false

-- `set_loop_count(get_loop_count() - 1)`, on a `uint8_t`.
unfoldable pub decrement_loop : ObjectiveOption → ObjectiveOption
decrement_loop o = record o { loop_count = u8 (o.loop_count + 255) }

-- The option that answers `o` with the value of the agent: its length is that of the string.
unfoldable pub answer_option : ObjectiveOption → List ℕ → ℕ → ObjectiveOption
answer_option o upper_data n = record {
  base = record { type = o.type; len = u16 n; value = some upper_data };
  loop_count = o.loop_count;
  flag = o.flag;
}

-- The reply that carries a value, by `send` with message type `type`.
unfoldable pub send_value :
    Endian → ℕ → Written → Session → ObjectiveOption → List ℕ → MsgType → Option Sent
send_value e random w s o upper_data type = do
  n ← strlen upper_data
  bits ← objective_to_bits e (answer_option o upper_data n)
  send random w s bits (u16 n + objective_len_except_value) type

-- The reply that ends the negotiation: `Decline` for a loop count of 0, `Accept` otherwise.
unfoldable pub send_verdict : Endian → ℕ → Written → Session → ObjectiveOption → Option Sent
send_verdict e random w s o = do
  bits ←
      to_bits e
        (record { type = if o.loop_count == 0 then decline else accept; len = 0; value = none })
  send random w s bits option_len_except_value nego_end_msg

-- `set_cur_state(SESSION_END)` after a reply.
abbrev pub ended : Sent → Option Sent
ended r = some (record r { session = set_cur_state r.session session_end })

-- From the decrement of the loop count to the end of the iteration.
unfoldable pub reply : Endian → Asa → ℕ → Written → Session → ObjectiveOption → Option Sent
reply e asa random w s received =
    let o = decrement_loop received in
    let value = get_value o.base in
    let upper_data = asa.asa_negotiate_result value in
    let s' = set_cur_state s idle in
    if option_type_is_synchronization o.type
    then (send_value e random w s' o upper_data nego_end_msg >>= ended)
    else if not (asa.asa_geq_fn upper_data value) && not (o.loop_count == 0)
    then send_value e random w s' o upper_data nego_msg
    else (send_verdict e random w s' o >>= ended)

-- How the first half of an iteration ends.
pub data Began : Type 0 where
  -- The queue was empty: the thread sleeps.
  waited : Began
  -- The item was dropped as a duplicate, or its message type refused.
  dropped refused : Session → Began
  -- A wait thread was created, and the option goes to the agent.
  handling : Session → ObjectiveOption → Began
  -- The state is PROCESSING, but the message carries no objective option.
  misplaced : Session → Began
  -- The peer has ended the session, with this option.
  closing : Session → GdnpOption → Began

-- The session after the first half.
abbrev pub began_session : Session → Began → Session
began_session s waited = s
began_session s (dropped s') = s'
began_session s (refused s') = s'
began_session s (handling s' o) = s'
began_session s (misplaced s') = s'
began_session s (closing s' o) = s'

unfoldable pub is_objective_msg : MsgType → Bool
is_objective_msg nego_msg = true
is_objective_msg request_msg = true
is_objective_msg _ = false

-- After a successful `set_state`, by the state that it left. Both parsers write to fresh blocks,
-- `chunk` and `chunk'`.
dispatch :
    Endian → List ℕ → List ℕ → ServerState → Session → Content → ObjectiveOption → Option Began
unfolding is_objective_msg
dispatch e chunk chunk' session_end s c o = do
  verdict ← parse_bits e chunk' c.body
  some (closing s verdict)
dispatch e chunk chunk' _ s c o =
    some (if is_objective_msg c.type then handling s o else misplaced s)

-- After the filter: the state, the parser, and the line that prints the value as a string.
unfoldable pub take_up : Endian → List ℕ → List ℕ → Session → Content → Option Began
unfolding dispatch
take_up e chunk chunk' s c =
    let (s', code) = set_state s c.type in
    if is_success code
    then (do
      o ← objective_parse_bits e chunk c.body
      printed ← strlen (get_value o.base)
      dispatch e chunk chunk' s'.cur_state s' c o)
    else some (refused s')

-- The filter: `last` is `last_content`, which the result carries on.
filter_duplicate : Endian → List ℕ → List ℕ → Session → Content → Content → Option (Began × Content)
filter_duplicate e chunk chunk' s c last = do
  duplicate ← content_eq c last
  if duplicate
      then some (dropped s, last)
      else (do last' ← assign last c; began ← take_up e chunk chunk' s c; some (began, last'))

-- The first half of an iteration whose loop test has passed.
unfoldable pub begin : Endian → List ℕ → List ℕ → Session → Content → Option (Began × Content)
unfolding filter_duplicate
begin e chunk chunk' s last = elim (queue_pop (record s { idle_check = 1 })) [
  | none ↦ some (waited, last)
  | some (c, s') ↦ filter_duplicate e chunk chunk' s' c last
]
