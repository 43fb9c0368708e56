-- ===== src/Content.antt =====
-- common_structs.h: an item of a session's queue, its comparison and its assignment.
pub mod Duplicates
use ietf_anima_signaling_pro.Base.{
  ℕ, ◌==◌, if◌then◌else◌, List, strcmp_eq, strcpy, Bool, true, false, Option, none, some,
}
use ietf_anima_signaling_pro.Msg.{MsgType, msg_type_code}

-- `struct content`; `body` is its field `data`, of 1000 bytes.
pub record Content : Type 0 where
  pub type : MsgType
  pub body : List ℕ

unfoldable pub msg_type_eq : MsgType → MsgType → Bool
unfolding msg_type_code
msg_type_eq a b = msg_type_code a == msg_type_code b

-- `operator ==`: the bodies are compared as strings. `none`: a body with no end is read past.
unfoldable pub content_eq : Content → Content → Option Bool
unfolding msg_type_eq
content_eq a b = if msg_type_eq a.type b.type then strcmp_eq a.body b.body else some false

-- `operator =` on `old`: the body is copied as a string.
unfoldable pub assign : Content → Content → Option Content
assign old c = elim (strcpy old.body c.body) [
  | none ↦ none
  | some body ↦ some (record { type = c.type; body = body })
]
