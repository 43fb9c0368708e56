-- ===== src/Server/Sessions.antt =====
-- The map of sessions, and `distribute`, which hands a message to one of them.
pub mod Map
pub mod Delivery
use ietf_anima_signaling_pro.Base.{
  ◌>>=◌, ℕ, ◌==◌, ltb, if◌then◌else◌, List, [], ◌∷◌, take, memcpy, Option, none, some, Bool, true,
  false,
}
use ietf_anima_signaling_pro.Msg.{MsgType, request_msg, max_string_length}
use ietf_anima_signaling_pro.Pdu.{Descriptor}
use ietf_anima_signaling_pro.Content.{Content}
use ietf_anima_signaling_pro.Session.{Session, queue_push, new_session}

-- `ss_map`, in the order of its iterator.
abbrev pub SessionMap : Type 0
SessionMap = List (ℕ × Session)

-- `std::map::insert`: an id that is there keeps its session.
unfoldable pub insert : ℕ → Session → SessionMap → SessionMap
insert k s [] = (k, s) ∷ []
insert k s ((j, t) ∷ m) =
    if k == j then (j, t) ∷ m else if ltb k j then (k, s) ∷ (j, t) ∷ m else (j, t) ∷ insert k s m

-- How `distribute` ends.
pub data Delivered : Type 0 where
  -- A REQUEST_MSG for a session that is there.
  old_session : Delivered
  -- Another message for a session that is not.
  new_session_expected : Delivered
  -- The message is in its session's queue.
  queued : Delivered
  -- A session was created, and its thread.
  launched : Delivered

unfoldable pub is_request : MsgType → Bool
is_request request_msg = true
is_request _ = false

-- The `while` loop, up to its `return` or `break`; `none`: it came to the end of the map.
unfoldable pub find_and_push : ℕ → MsgType → Content → SessionMap → Option (SessionMap × Delivered)
unfolding is_request queue_push
find_and_push id type c [] = none
find_and_push id type c ((j, s) ∷ m) =
    let rest = (find_and_push id type c m >>= λ r. some ((j, s) ∷ r.0, r.1)) in
    if j == id
    then (if is_request type
        then some ((j, s) ∷ m, old_session)
        else some ((j, queue_push s c) ∷ m, queued))
    else rest

-- What follows the loop.
unfoldable pub start_session :
    Descriptor → ℕ → MsgType → Content → SessionMap → SessionMap × Delivered
unfolding is_request insert new_session
start_session tcp_sock id type c m =
    if is_request type
    then (insert id (new_session tcp_sock id c) m, launched)
    else (m, new_session_expected)

-- The local `content c`: `stack` is the block that `c.data` reaches, `buffer` that of the argument.
unfoldable pub copy_content : List ℕ → MsgType → List ℕ → ℕ → Option Content
copy_content stack type buffer buffer_size = do
  written ← memcpy stack buffer buffer_size
  some (record { type = type; body = take max_string_length written })

-- From the loop on.
unfoldable pub hand_over : Descriptor → ℕ → MsgType → Content → SessionMap → SessionMap × Delivered
unfolding start_session
hand_over tcp_sock id type c m = elim (find_and_push id type c m) [
  | some r ↦ r
  | none ↦ start_session tcp_sock id type c m
]

-- `distribute` on the map, with the socket that a new session gets.
unfoldable pub distribute :
    List ℕ → Descriptor → SessionMap → ℕ → List ℕ → ℕ → MsgType → Option (SessionMap × Delivered)
unfolding copy_content hand_over
distribute stack tcp_sock m id buffer buffer_size type = do
  c ← copy_content stack type buffer buffer_size
  some (hand_over tcp_sock id type c m)

-- The first loop of `clear_when_session_end`. It increments an iterator that it has just erased;
-- `survives` says whether that leads to the next session, or is the fault that C++ allows.
unfoldable pub clear_sessions : Bool → ℕ → SessionMap → Option SessionMap
clear_sessions survives id [] = some []
clear_sessions survives id ((j, s) ∷ m) =
    let rest = clear_sessions survives id m in
    if j == id then (if survives then rest else none) else (rest >>= λ r. some ((j, s) ∷ r))
