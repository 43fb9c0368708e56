-- ===== src/Pdu/Carried.antt =====
-- A message as whoever reads it whole gets it.
use ietf_anima_signaling_pro.Base.{
  ℕ, ◌+◌, ◌-◌, ◌^◌, ◌≤◌, ◌<◌, ◌≡◌, ap, ◌∙◌, Endian, List, ◌++◌, length, take_all, zeros,
  length-zeros, some, arith,
}
use ietf_anima_signaling_pro.Errno.{ok}
use ietf_anima_signaling_pro.Msg.{MsgType, Msg, max_string_length, max_session_id}
use ietf_anima_signaling_pro.Msg.Codec.{encoded, decode-encoded}
use ietf_anima_signaling_pro.Pdu.{got, msg_bytes, read_pdu}
use ietf_anima_signaling_pro.Pdu.Transfer.{read_pdu-whole, encoded-IsMsg}

-- Whoever reads the message whole is given this type, session id and content.
abbrev pub Carries : Endian → Msg → MsgType → ℕ → List ℕ → Type 0
Carries e m t sid content =
    (fd : ℕ) (pad stale : List ℕ)
    → read_pdu e (some fd) (got (msg_bytes e pad m)) stale
      ≡ ok (record {
        type = t;
        session_id = sid;
        content = content;
        data_size = max_string_length + 1;
      })

pub encoded-Carries :
    (e : Endian) (random : ℕ) (t : MsgType) (sid : ℕ) (bits : List ℕ)
    → random < 2 ^ 32
    → sid ≤ max_session_id
    → length bits ≤ max_string_length
    → Carries e
        (encoded random t sid bits (length bits))
        t
        sid
        (bits ++ zeros (max_string_length - length bits))
encoded-Carries e random t sid bits hr hs hb fd pad stale =
    read_pdu-whole e fd _ pad stale
      (encoded-IsMsg random t sid bits (length bits) hr hs hb (omega arith))
    ∙ decode-encoded random t sid bits (length bits) (zeros 1000) hs hb (omega arith)
        (length-zeros 1000)
    ∙ ap
        (λ (c : List ℕ). ok (record {
          type = t;
          session_id = sid;
          content = c ++ zeros (1000 - length bits);
          data_size = 1001;
        }))
        (take_all (length bits) bits (omega arith))
