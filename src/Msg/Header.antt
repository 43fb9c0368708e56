-- ===== src/Msg/Header.antt =====
-- The header word of a message: the type in the upper byte, the session id below it.
use ietf_anima_signaling_pro.Base.{
  ℕ, ◌+◌, ◌*◌, ◌^◌, ◌≤◌, ◌<◌, ◌≡◌, bit_or, bit_or-shifted, u32, some, none, arith,
}
use ietf_anima_signaling_pro.Msg.{
  MsgType, msg_type_code, type_of_code, session_id_size, max_session_id,
}

pub type_of_code-msg_type_code : (t : MsgType) → type_of_code (msg_type_code t) ≡ some t
unfolding type_of_code msg_type_code
type_of_code-msg_type_code t = ground arith

pub msg_type_code-of : (c : ℕ) (t : MsgType) → type_of_code c ≡ some t → c ≡ msg_type_code t
unfolding type_of_code msg_type_code
msg_type_code-of c t h = ground arith

pub type_of_code-none : (c : ℕ) → 6 < c → type_of_code c ≡ none
unfolding type_of_code
type_of_code-none c h = ground arith

pub msg_type_code_bounds : (t : MsgType) → (1 ≤ msg_type_code t) × (msg_type_code t ≤ 6)
unfolding msg_type_code
msg_type_code_bounds t = ground arith

no_wrap :
    (t : MsgType)
    → u32 (msg_type_code t * 2 ^ session_id_size) ≡ msg_type_code t * 2 ^ session_id_size
no_wrap t = omega (arith, msg_type_code_bounds t)

-- The header that `encode` builds, as a sum.
pub header-sum :
    (t : MsgType) (sid : ℕ)
    → sid ≤ max_session_id
    → bit_or (u32 (msg_type_code t * 2 ^ session_id_size)) sid ≡ msg_type_code t * 16777216 + sid
header-sum t sid h = rw (no_wrap t) (bit_or-shifted 24 (msg_type_code t) sid (omega arith))
