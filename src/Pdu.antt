-- ===== src/Pdu.antt =====
-- BaseNegotiator.cpp: protocol data units over sockets. What a system call answers is an argument.
pub mod Image
pub mod Transfer
pub mod Sockets
pub mod Carried
pub mod Types
use ietf_anima_signaling_pro.Base.{
  ℕ, ◌+◌, ltb, if◌then◌else◌, Endian, store32, load32, List, ◌++◌, take, drop, length, zeros,
  Option, none, some,
}
use ietf_anima_signaling_pro.Errno.{
  Errno, Outcome, ok, err, fault, ◌>>=◌, checked, success, send_err, addr_err,
  send_unexpected_bytes_err, encode_err, recv_err, sock_not_init,
}
use ietf_anima_signaling_pro.Msg.{MsgType, Msg, Decoded, encode, decode, max_string_length}

-- A socket descriptor; `none` is the -1 of a socket that is not there.
abbrev pub Descriptor : Type 0
Descriptor = Option ℕ

-- `sizeof(msg)`: two words, 1001 bytes, and three bytes of padding to a multiple of four.
abbrev pub sizeof_msg : ℕ
sizeof_msg = 1012

-- What `write` or `sendto` answers: -1 with `errno` EADDRNOTAVAIL, -1 with another, or a count.
pub data Written : Type 0 where
  unavailable failed : Written
  wrote : ℕ → Written

-- The code for the answer of `write`.
unfoldable pub written_errno : Written → Errno
written_errno unavailable = addr_err
written_errno failed = send_err
written_errno (wrote n) = if ltb n sizeof_msg then send_unexpected_bytes_err else success

-- How a call that sends ends: its code, and the message that it handed to the system.
pub record Sending : Type 0 where
  pub code : Errno
  pub handed : Option Msg

-- After `encode`. `none` is a read past the end of the buffer.
unfoldable pub send_encoded : Written → Outcome Msg → Option Sending
unfolding written_errno
send_encoded w (ok m) = some (record { code = written_errno w; handed = some m })
send_encoded w (err _) = some (record { code = encode_err; handed = none })
send_encoded w fault = none

-- The part that `write_pdu` and `send_pdu` share: the check of the socket, `encode`, the call, and
-- the codes.
unfoldable pub transmit : Descriptor → ℕ → Written → List ℕ → ℕ → MsgType → ℕ → Option Sending
unfolding send_encoded
transmit none random w buffer n type session_id =
    some (record { code = sock_not_init; handed = none })
transmit (some fd) random w buffer n type session_id =
    send_encoded w (encode random type session_id buffer n)

-- `write_pdu` on the socket `tcp_sock`.
unfoldable pub write_pdu : Descriptor → ℕ → Written → List ℕ → ℕ → MsgType → ℕ → Option Sending
unfolding transmit
write_pdu tcp_sock = transmit tcp_sock

-- `send_pdu` on the socket `udp_sock`; the address goes to the system with the message.
unfoldable pub send_pdu :
    {Address : Type 0}
    → Descriptor
    → ℕ
    → Written
    → List ℕ
    → ℕ
    → MsgType
    → ℕ
    → Address
    → Option (Sending × Address)
unfolding transmit
send_pdu udp_sock random w buffer n type session_id target =
    elim (transmit udp_sock random w buffer n type session_id) [
      | none ↦ none
      | some s ↦ some (s, target)
    ]

-- The bytes of a message in memory; `pad` are its three bytes of padding.
unfoldable pub msg_bytes : Endian → List ℕ → Msg → List ℕ
msg_bytes e pad m = store32 e m.header ++ (store32 e m.device_id ++ (m.payload ++ pad))

-- The message that lies in a buffer.
unfoldable pub msg_of_bytes : Endian → List ℕ → Option Msg
msg_of_bytes e bytes = elim (load32 e bytes) [
  | none ↦ none
  | some header ↦ elim (load32 e (drop 4 bytes)) [
    | none ↦ none
    | some device ↦ some (record {
      header = header;
      device_id = device;
      payload = take (max_string_length + 1) (drop 8 bytes);
    })
  ]
]

-- What `read` or `recvfrom` answers: -1, or the bytes that it stored.
pub data Reading : Type 0 where
  broken : Reading
  got : List ℕ → Reading

-- The buffer `pdu_buf` after a read that stored `bytes` over what it held.
abbrev pub overlay : List ℕ → List ℕ → List ℕ
overlay bytes stale = bytes ++ drop (length bytes) stale

-- The part that `read_pdu` and `recv_pdu` share. `stale` is what the local buffer held before. The
-- number of bytes is compared with 0 only.
unfoldable pub receive : Endian → Descriptor → Reading → List ℕ → Outcome Decoded
receive e none r stale = err sock_not_init
receive e (some fd) broken stale = err recv_err
receive e (some fd) (got bytes) stale = checked (msg_of_bytes e (overlay bytes stale)) >>= λ m.
    decode (some m) (zeros max_string_length)

-- `read_pdu` on the socket `tcp_sock`.
unfoldable pub read_pdu : Endian → Descriptor → Reading → List ℕ → Outcome Decoded
unfolding receive
read_pdu e tcp_sock = receive e tcp_sock

-- `recv_pdu` on the socket `udp_sock`; the system also stores the sender's address.
unfoldable pub recv_pdu :
    {Address : Type 0}
    → Endian
    → Descriptor
    → Reading
    → Address
    → List ℕ
    → Outcome (Decoded × Address)
unfolding receive
recv_pdu e udp_sock r from stale = receive e udp_sock r stale >>= λ d. ok (d, from)
