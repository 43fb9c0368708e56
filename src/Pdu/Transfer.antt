-- ===== src/Pdu/Transfer.antt =====
-- What one side writes and the other reads.
use mathlib.Core.List.{append_assoc}
use ietf_anima_signaling_pro.Base.{
  Option, ℕ, ◌+◌, ◌-◌, ◌^◌, ◌≤◌, ◌<◌, ◌≡◌, ◌≢◌, refl, ap, sym, ◌∙◌, Endian, List, [], ◌++◌, take,
  length, zeros, length-zeros, none, some, arith,
}
use ietf_anima_signaling_pro.Errno.{Outcome, ok, err, fault, success, checked, ◌>>=◌}
use ietf_anima_signaling_pro.Msg.{
  Decoded, MsgType, Msg, max_string_length, max_session_id, decode, encode,
}
use ietf_anima_signaling_pro.Msg.Header.{msg_type_code_bounds}
use ietf_anima_signaling_pro.Msg.Codec.{
  encoded, encode-encoded, decode-encoded, length-encoded, encode-eq-ok,
}
use ietf_anima_signaling_pro.Pdu.{
  overlay, msg_of_bytes, Reading, Descriptor, broken, Written, wrote, unavailable, failed, Sending,
  send_encoded, got, sizeof_msg, transmit, write_pdu, read_pdu, written_errno, msg_bytes,
}
use ietf_anima_signaling_pro.Pdu.Image.{IsMsg, msg_of_bytes-msg_bytes}

pub encoded-IsMsg :
    (random : ℕ) (t : MsgType) (sid : ℕ) (buffer : List ℕ) (n : ℕ)
    → random < 2 ^ 32
    → sid ≤ max_session_id
    → n ≤ max_string_length
    → n ≤ length buffer
    → IsMsg (encoded random t sid buffer n)
encoded-IsMsg random t sid buffer n hr hs hn hb = record {
  header_fits = omega (arith, msg_type_code_bounds t);
  device_fits = hr;
  payload_full = length-encoded random t sid buffer n hn hb;
}

msg_bytes-append :
    (e : Endian) (m : Msg) (pad rest : List ℕ)
    → msg_bytes e pad m ++ rest ≡ msg_bytes e (pad ++ rest) m
unfolding msg_bytes
msg_bytes-append e m pad rest = simp append_assoc

-- A read of a whole message gives what `decode` makes of it, whatever the buffer held.
pub read_pdu-whole :
    (e : Endian) (fd : ℕ) (m : Msg) (pad stale : List ℕ)
    → IsMsg m
    → read_pdu e (some fd) (got (msg_bytes e pad m)) stale
      ≡ decode (some m) (zeros max_string_length)
unfolding read_pdu
read_pdu-whole e fd m pad stale v = rw (msg_bytes-append e m pad _, msg_of_bytes-msg_bytes e m _ v)

pub write_pdu-encoded :
    (fd random : ℕ) (w : Written) (buffer : List ℕ) (n : ℕ) (t : MsgType) (sid : ℕ)
    → sid ≤ max_session_id
    → n ≤ max_string_length
    → n ≤ length buffer
    → write_pdu (some fd) random w buffer n t sid
      ≡ some (record { code = written_errno w; handed = some (encoded random t sid buffer n) })
unfolding write_pdu
write_pdu-encoded fd random w buffer n t sid hs hn hb =
    rw (encode-encoded random t sid buffer n hs hn hb, transmit)

-- `write_pdu` followed by `read_pdu` at the other end, of the same byte order: the reader gets the
-- type, the session id and the bytes that the writer gave, padded with zeros, whatever its buffer
-- held before. The size that it is told is always 1001, one more than the bytes that it gets.
pub read_pdu-write_pdu :
    (e : Endian) (fd fd' random : ℕ) (buffer pad stale : List ℕ) (n : ℕ) (t : MsgType) (sid : ℕ)
    → random < 2 ^ 32
    → sid ≤ max_session_id
    → n ≤ max_string_length
    → n ≤ length buffer
    → (m : Msg) × (write_pdu (some fd) random (wrote sizeof_msg) buffer n t sid
        ≡ some (record { code = success; handed = some m }))
      × (read_pdu e (some fd') (got (msg_bytes e pad m)) stale
          ≡ ok (record {
            type = t;
            session_id = sid;
            content = take n buffer ++ zeros (max_string_length - n);
            data_size = max_string_length + 1;
          }))
read_pdu-write_pdu e fd fd' random buffer pad stale n t sid hr hs hn hb = (
  encoded random t sid buffer n,
  write_pdu-encoded fd random (wrote sizeof_msg) buffer n t sid hs hn hb
      ∙ unfold written_errno in refl,
  read_pdu-whole e fd' _ pad stale (encoded-IsMsg random t sid buffer n hr hs hn hb)
      ∙ decode-encoded random t sid buffer n (zeros 1000) hs hn hb (length-zeros 1000),
)

-- A peer that has closed the connection is not noticed: the read of no bytes is answered with the
-- message that the buffer held before, as if it had just come.
pub read_pdu-closed :
    (e : Endian) (fd : ℕ) (m : Msg) (pad stale : List ℕ)
    → IsMsg m
    → read_pdu e (some fd) (got []) (msg_bytes e pad m)
      ≡ read_pdu e (some fd) (got (msg_bytes e pad m)) stale
read_pdu-closed e fd m pad stale v = nothing_read ∙ sym (read_pdu-whole e fd m pad stale v)
  where
    nothing_read :
        read_pdu e (some fd) (got []) (msg_bytes e pad m)
        ≡ decode (some m) (zeros max_string_length)
    nothing_read = unfold read_pdu in rw (msg_of_bytes-msg_bytes e m pad v)

sent_success :
    (w : Written) (o : Outcome Msg) (s : Sending)
    → send_encoded w o ≡ some s
    → s.code ≡ success
    → (k : ℕ) × (m : Msg) × (w ≡ wrote k) × (sizeof_msg ≤ k) × (o ≡ ok m) × (s.handed ≡ some m)
unfolding send_encoded
sent_success (wrote k) (ok m) s h c = (k, m, refl, ground arith, refl, ground arith)
sent_success unavailable (ok m) s h c = ground arith
sent_success failed (ok m) s h c = ground arith
sent_success w (err x) s h c = ground arith
sent_success w fault s h c = ground arith

-- `write_pdu` of a buffer that holds its bytes reports success only if the socket is there, size
-- and session id are in range, and the system took all 1012 bytes of the message of the arguments.
pub write_pdu_success :
    (fd : Descriptor) (random : ℕ) (w : Written) (buffer : List ℕ) (n : ℕ) (t : MsgType) (sid : ℕ)
    (s : Sending)
    → n ≤ length buffer
    → write_pdu fd random w buffer n t sid ≡ some s
    → s.code ≡ success
    → (k : ℕ) × (w ≡ wrote k)
      × (sizeof_msg ≤ k)
      × (n ≤ max_string_length)
      × (sid ≤ max_session_id)
      × (s.handed ≡ some (encoded random t sid buffer n))
      × (fd ≢ none)
unfolding write_pdu
write_pdu_success none random w buffer n t sid s hb h c = ground arith
write_pdu_success (some x) random w buffer n t sid s hb h c =
    let (k, m, wk, full, o, hm) = sent_success w (encode random t sid buffer n) s h c in
    let (fits, in_range, eq) = encode-eq-ok random t sid buffer n m hb o in
    (k, wk, full, fits, in_range, hm ∙ ap some eq, λ q. cc)

decode-data_size :
    (m : Msg) (dst : List ℕ) (d : Decoded) → decode (some m) dst ≡ ok d → d.data_size ≡ 1001
unfolding decode
decode-data_size m dst d h = ground arith

checked-data_size :
    (o : Option Msg) (d : Decoded)
    → (checked o >>= λ m. decode (some m) (zeros 1000)) ≡ ok d
    → d.data_size ≡ 1001
checked-data_size none d h = cc
checked-data_size (some m) d h = decode-data_size m (zeros 1000) d h

-- The size that a decoded message reports is always that of the whole array, 1001 bytes.
pub read_pdu-data_size :
    (e : Endian) (tcp_sock : Descriptor) (read : Reading) (buffer : List ℕ) (d : Decoded)
    → read_pdu e tcp_sock read buffer ≡ ok d
    → d.data_size ≡ 1001
unfolding read_pdu
read_pdu-data_size e none read buffer d h = cc
read_pdu-data_size e (some fd) broken buffer d h = cc
read_pdu-data_size e (some fd) (got bytes) buffer d h =
    checked-data_size (msg_of_bytes e (overlay bytes buffer)) d h
