-- ===== src/Pdu/Types.antt =====
-- The type of a message that `write_pdu` hands to the system.
use ietf_anima_signaling_pro.Base.{ℕ, ◌≡◌, List, none, some, arith}
use ietf_anima_signaling_pro.Errno.{Outcome, ok, err, fault}
use ietf_anima_signaling_pro.Msg.{MsgType, Msg, encode}
use ietf_anima_signaling_pro.Msg.Codec.{encode-type, type_of_msg}
use ietf_anima_signaling_pro.Pdu.{Descriptor, Written, Sending, write_pdu, send_encoded}

sent-type :
    (w : Written) (o : Outcome Msg) (s : Sending) (m : Msg)
    → send_encoded w o ≡ some s
    → s.handed ≡ some m
    → o ≡ ok m
unfolding send_encoded
sent-type w (ok x) s m h k = ground arith
sent-type w (err x) s m h k = ground arith
sent-type w fault s m h k = ground arith

-- A message that `write_pdu` hands on is the one that `encode` makes of its arguments.
pub write_pdu-encoded_as :
    (fd : Descriptor) (random : ℕ) (w : Written) (buffer : List ℕ) (n : ℕ) (t : MsgType) (sid : ℕ)
    (s : Sending) (m : Msg)
    → write_pdu fd random w buffer n t sid ≡ some s
    → s.handed ≡ some m
    → encode random t sid buffer n ≡ ok m
unfolding write_pdu
write_pdu-encoded_as none random w buffer n t sid s m h k = ground arith
write_pdu-encoded_as (some fd) random w buffer n t sid s m h k =
    sent-type w (encode random t sid buffer n) s m h k

pub write_pdu-type :
    (fd : Descriptor) (random : ℕ) (w : Written) (buffer : List ℕ) (n : ℕ) (t : MsgType) (sid : ℕ)
    (s : Sending) (m : Msg)
    → write_pdu fd random w buffer n t sid ≡ some s
    → s.handed ≡ some m
    → type_of_msg m ≡ some t
write_pdu-type fd random w buffer n t sid s m h k =
    encode-type random t sid buffer n m (write_pdu-encoded_as fd random w buffer n t sid s m h k)
