-- ===== src/Msg.antt =====
-- msg.h and msg.cpp: the message of the protocol, its header word, and the two codecs.
pub mod Header
pub mod Sealed
pub mod Codec
use ietf_anima_signaling_pro.Base.{
  ℕ, ◌+◌, ◌-◌, ◌*◌, ◌/◌, ◌^◌, bit_or, ◌==◌, ltb, if◌then◌else◌, u32, List, memcpy, zeros, Option,
  none, some,
}
use ietf_anima_signaling_pro.Errno.{
  Outcome, ok, err, ◌>>=◌, checked, options_too_long_err, session_id_too_long_err, null_point_err,
  msg_type_err,
}

pub data MsgType : Type 0 where
  discovery_msg response_msg request_msg nego_msg nego_end_msg wait_msg : MsgType

unfoldable pub msg_type_code : MsgType → ℕ
msg_type_code discovery_msg = 1
msg_type_code response_msg = 2
msg_type_code request_msg = 3
msg_type_code nego_msg = 4
msg_type_code nego_end_msg = 5
msg_type_code wait_msg = 6

abbrev pub session_id_size : ℕ
session_id_size = 24

abbrev pub max_session_id : ℕ
max_session_id = 16777215

abbrev pub max_string_length : ℕ
max_string_length = 1000

-- `struct msg`; `payload` is its field `data`, of `max_string_length` + 1 bytes.
pub record Msg : Type 0 where
  pub header : ℕ
  pub device_id : ℕ
  pub payload : List ℕ

-- `random` is what `generate_random` returns, `buffer` the bytes that can be read from `data`.
unfoldable pub encode : ℕ → MsgType → ℕ → List ℕ → ℕ → Outcome Msg
unfolding msg_type_code
encode random type session_id buffer data_size =
    if ltb max_string_length data_size
    then err options_too_long_err
    else if ltb max_session_id session_id
    then err session_id_too_long_err
    else do
      payload ← checked (memcpy (zeros (max_string_length + 1)) buffer data_size)
      ok (record {
        header = bit_or (u32 (msg_type_code type * 2 ^ session_id_size)) session_id;
        device_id = random;
        payload = payload;
      })

-- The `switch` of `decode` on the upper byte of the header.
unfoldable pub type_of_code : ℕ → Option MsgType
type_of_code c =
    if c == 1
    then some discovery_msg
    else if c == 2
    then some response_msg
    else if c == 3
    then some request_msg
    else if c == 4
    then some nego_msg
    else if c == 5
    then some nego_end_msg
    else if c == 6
    then some wait_msg
    else none

-- What `decode` stores through its reference parameters.
pub record Decoded : Type 0 where
  pub type : MsgType
  pub session_id : ℕ
  pub content : List ℕ
  pub data_size : ℕ

-- After the switch: the session id is what the type leaves of the header.
decode_as : MsgType → Msg → List ℕ → Outcome Decoded
unfolding msg_type_code
decode_as type m buffer = do
  content ← checked (memcpy buffer m.payload max_string_length)
  ok (record {
    type = type;
    session_id = u32 (m.header + 2 ^ 32 - u32 (msg_type_code type * 2 ^ session_id_size));
    content = content;
    data_size = max_string_length + 1;
  })

-- `none` is the null pointer; `buffer` is the block that `data` points to.
unfoldable pub decode : Option Msg → List ℕ → Outcome Decoded
unfolding decode_as
decode none buffer = err null_point_err
decode (some m) buffer = elim (type_of_code (m.header / 2 ^ session_id_size)) [
  | none ↦ err msg_type_err
  | some type ↦ decode_as type m buffer
]
