-- ===== src/Msg/Codec.antt =====
-- What `encode` and `decode` promise.
use ietf_anima_signaling_pro.Base.{
  Option, ℕ, ◌+◌, ◌-◌, ◌*◌, ◌/◌, ◌^◌, ◌≤◌, ◌<◌, ◌≡◌, ◌↔◌, ◌⊎◌, u32, List, ◌++◌, length, take, zeros,
  length-zeros, take-zeros, drop-zeros, length-append, length-take, memcpy, memcpy_fits,
  memcpy_fill, take-append_ge, ap, ◌∙◌, some, arith,
}
use ietf_anima_signaling_pro.Errno.{
  ◌>>=◌, ok, err, session_id_too_long_err, options_too_long_err, msg_type_err,
}
use ietf_anima_signaling_pro.Msg.{
  session_id_size, MsgType, Msg, Decoded, msg_type_code, max_session_id, max_string_length, encode,
  decode, type_of_code,
}
use ietf_anima_signaling_pro.Msg.Header.{
  header-sum, msg_type_code-of, type_of_code-msg_type_code, msg_type_code_bounds,
}

-- The message that `encode` makes of arguments in range.
abbrev pub encoded : ℕ → MsgType → ℕ → List ℕ → ℕ → Msg
encoded random t sid buffer n = record {
  header = msg_type_code t * 16777216 + sid;
  device_id = random;
  payload = take n buffer ++ zeros (max_string_length + 1 - n);
}

pub encode-encoded :
    (random : ℕ) (t : MsgType) (sid : ℕ) (buffer : List ℕ) (n : ℕ)
    → sid ≤ max_session_id
    → n ≤ max_string_length
    → n ≤ length buffer
    → encode random t sid buffer n ≡ ok (encoded random t sid buffer n)
unfolding encode
encode-encoded random t sid buffer n hs hn hb = ground (
  arith,
  header-sum t sid hs,
  memcpy_fits (zeros 1001) buffer n,
  drop-zeros n 1001,
  length-zeros 1001,
)

-- The payload of a message of arguments in range has all its bytes.
pub length-encoded :
    (random : ℕ) (t : MsgType) (sid : ℕ) (buffer : List ℕ) (n : ℕ)
    → n ≤ max_string_length
    → n ≤ length buffer
    → length (encoded random t sid buffer n).payload ≡ max_string_length + 1
length-encoded random t sid buffer n hn hb = omega (
  arith,
  length-append (take n buffer) (zeros (1001 - n)),
  length-take n buffer,
  length-zeros (1001 - n),
)

-- The bytes of the payload that `decode` hands on.
take-encoded :
    (random : ℕ) (t : MsgType) (sid : ℕ) (buffer : List ℕ) (n : ℕ)
    → n ≤ max_string_length
    → n ≤ length buffer
    → take max_string_length (encoded random t sid buffer n).payload
      ≡ take n buffer ++ zeros (max_string_length - n)
take-encoded random t sid buffer n hn hb =
    take-append_ge 1000 (take n buffer) (zeros (1001 - n)) (omega (arith, short))
    ∙ ap (◌++◌ (take n buffer)) (rw short (take-zeros (1000 - n) (1001 - n) (omega arith)))
  where
    short : length (take n buffer) ≡ n
    short = omega (arith, length-take n buffer)

pub decode-encoded :
    (random : ℕ) (t : MsgType) (sid : ℕ) (buffer : List ℕ) (n : ℕ) (dst : List ℕ)
    → sid ≤ max_session_id
    → n ≤ max_string_length
    → n ≤ length buffer
    → length dst ≡ max_string_length
    → decode (some (encoded random t sid buffer n)) dst
      ≡ ok (record {
        type = t;
        session_id = sid;
        content = take n buffer ++ zeros (max_string_length - n);
        data_size = max_string_length + 1;
      })
unfolding decode
decode-encoded random t sid buffer n dst hs hn hb hd =
    let upper : type_of_code ((msg_type_code t * 16777216 + sid) / 16777216) ≡ some t =
      ap type_of_code {y = msg_type_code t} (omega arith) ∙ type_of_code-msg_type_code t in
    let copied : memcpy dst (encoded random t sid buffer n).payload 1000
        ≡ some (take n buffer ++ zeros (1000 - n)) =
      memcpy_fill dst _ 1000 hd (omega (arith, length-encoded random t sid buffer n hn hb))
      ∙ ap some (take-encoded random t sid buffer n hn hb) in
    let below : u32 (msg_type_code t * 16777216 + sid + 2 ^ 32 - u32 (msg_type_code t * 2 ^ 24))
        ≡ sid =
      omega (arith, msg_type_code_bounds t) in
    rw (upper, decode, copied, below)

pub encode-eq-ok :
    (random : ℕ) (t : MsgType) (sid : ℕ) (buffer : List ℕ) (n : ℕ) (m : Msg)
    → n ≤ length buffer
    → encode random t sid buffer n ≡ ok m
    → (n ≤ max_string_length) × (sid ≤ max_session_id) × (m ≡ encoded random t sid buffer n)
unfolding encode
encode-eq-ok random t sid buffer n m hb h = ground (
  arith,
  header-sum t sid,
  memcpy_fits (zeros 1001) buffer n,
  drop-zeros n 1001,
  length-zeros 1001,
)

-- With a buffer that holds the bytes it is told to copy, `encode` fails exactly in two cases: a
-- size above 1000, and, with a size in range, a session id above 16777215. In all other cases it
-- makes the message of its arguments.
pub encode_branches :
    (random : ℕ) (t : MsgType) (sid : ℕ) (buffer : List ℕ) (n : ℕ)
    → n ≤ length buffer
    → ((encode random t sid buffer n ≡ err options_too_long_err) ↔ (max_string_length < n))
      × ((encode random t sid buffer n ≡ err session_id_too_long_err)
          ↔ ((n ≤ max_string_length) × (max_session_id < sid)))
      × ((n ≤ max_string_length)
          → (sid ≤ max_session_id)
          → encode random t sid buffer n ≡ ok (encoded random t sid buffer n))
unfolding encode
encode_branches random t sid buffer n hb = (
  ground (arith, memcpy_fits (zeros 1001) buffer n, length-zeros 1001),
  ground (arith, memcpy_fits (zeros 1001) buffer n, length-zeros 1001),
  λ hn hs. encode-encoded random t sid buffer n hs hn hb,
)

-- What `encode` makes of arguments in range, `decode` takes apart into the same type, the same
-- session id, and the bytes that were copied, padded with zeros to 1000.
pub decode-encode :
    (random : ℕ) (t : MsgType) (sid : ℕ) (buffer : List ℕ) (n : ℕ) (dst : List ℕ)
    → sid ≤ max_session_id
    → n ≤ max_string_length
    → n ≤ length buffer
    → length dst ≡ max_string_length
    → (encode random t sid buffer n >>= λ m. decode (some m) dst)
      ≡ ok (record {
        type = t;
        session_id = sid;
        content = take n buffer ++ zeros (max_string_length - n);
        data_size = max_string_length + 1;
      })
decode-encode random t sid buffer n dst hs hn hb hd =
    rw (encode-encoded random t sid buffer n hs hn hb)
      (decode-encoded random t sid buffer n dst hs hn hb hd)

-- A message that `decode` accepts has exactly the header that its type and session id make, and
-- that session id is in range.
pub decode-header :
    (m : Msg) (dst : List ℕ) (d : Decoded)
    → m.header < 2 ^ 32
    → decode (some m) dst ≡ ok d
    → (m.header ≡ msg_type_code d.type * 16777216 + d.session_id) × (d.session_id ≤ max_session_id)
unfolding decode
decode-header m dst d h e =
    ground (arith, msg_type_code-of (m.header / 16777216) d.type, msg_type_code_bounds d.type)

-- `decode` refuses a message for its type exactly when the upper byte of the header is none of 1 to 6.
pub decode_type_refused :
    (m : Msg) (dst : List ℕ)
    → (decode (some m) dst ≡ err msg_type_err)
      ↔ ((m.header / 16777216 ≡ 0) ⊎ (6 < m.header / 16777216))
unfolding decode type_of_code
decode_type_refused m dst = ground arith

encode-upper_byte :
    (random : ℕ) (t : MsgType) (sid : ℕ) (buffer : List ℕ) (n : ℕ) (m : Msg)
    → encode random t sid buffer n ≡ ok m
    → m.header / 16777216 ≡ msg_type_code t
unfolding encode
encode-upper_byte random t sid buffer n m h = ground (arith, header-sum t sid)

-- The type of a message, as `decode` finds it.
abbrev pub type_of_msg : Msg → Option MsgType
type_of_msg m = type_of_code (m.header / 2 ^ session_id_size)

pub encode-type :
    (random : ℕ) (t : MsgType) (sid : ℕ) (buffer : List ℕ) (n : ℕ) (m : Msg)
    → encode random t sid buffer n ≡ ok m
    → type_of_msg m ≡ some t
encode-type random t sid buffer n m h =
    ap type_of_code (encode-upper_byte random t sid buffer n m h) ∙ type_of_code-msg_type_code t
