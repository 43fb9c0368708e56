-- ===== src/Pdu/Image.antt =====
-- A message survives its trip through memory.
use ietf_anima_signaling_pro.Base.{
  ℕ, ◌+◌, ◌^◌, ◌<◌, ◌≡◌, Endian, little, big, List, length, take-append, some, arith,
}
use ietf_anima_signaling_pro.Msg.{Msg, max_string_length}
use ietf_anima_signaling_pro.Pdu.{msg_bytes, msg_of_bytes}

-- The fields of a message fit their types.
pub record IsMsg (m : Msg) : Type 0 where
  pub header_fits : m.header < 2 ^ 32
  pub device_fits : m.device_id < 2 ^ 32
  pub payload_full : length m.payload ≡ max_string_length + 1

pub msg_of_bytes-msg_bytes :
    (e : Endian) (m : Msg) (pad : List ℕ) → IsMsg m → msg_of_bytes e (msg_bytes e pad m) ≡ some m
unfolding msg_of_bytes msg_bytes
msg_of_bytes-msg_bytes little m pad v = ground (arith, v, take-append 1001 m.payload pad)
msg_of_bytes-msg_bytes big m pad v = ground (arith, v, take-append 1001 m.payload pad)
