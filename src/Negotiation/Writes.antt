-- ===== src/Negotiation/Writes.antt =====
-- A message that the system takes whole.
use ietf_anima_signaling_pro.Base.{ℕ, ◌≤◌, ◌≡◌, ap, ◌∙◌, List, ◌∷◌, length, some}
use ietf_anima_signaling_pro.Errno.{Errno, success}
use ietf_anima_signaling_pro.Msg.{MsgType, max_session_id, max_string_length}
use ietf_anima_signaling_pro.Msg.Codec.{encoded}
use ietf_anima_signaling_pro.Pdu.{Written, wrote, sizeof_msg, written_errno, write_pdu}
use ietf_anima_signaling_pro.Pdu.Transfer.{write_pdu-encoded}
use ietf_anima_signaling_pro.Negotiation.{Talk, Handled, sent_then, write_next, write_then}

-- `write_pdu` on a socket that is there.
pub write_pdu-whole :
    (t : Talk) (fd random : ℕ) (bytes : List ℕ) (n : ℕ) (type : MsgType)
    → t.client.tcp_sock ≡ some fd
    → t.client.session_id ≤ max_session_id
    → n ≤ max_string_length
    → n ≤ length bytes
    → write_pdu t.client.tcp_sock random (wrote sizeof_msg) bytes n type t.client.session_id
      ≡ some (record {
        code = success;
        handed = some (encoded random type t.client.session_id bytes n);
      })
unfolding written_errno
write_pdu-whole t fd random bytes n type opened in_range fits present =
    ap (λ d. write_pdu d random (wrote sizeof_msg) bytes n type t.client.session_id) opened
    ∙ write_pdu-encoded fd random (wrote sizeof_msg) bytes n type t.client.session_id in_range fits
        present

pub write_then-whole :
    (t : Talk) (fd random : ℕ) (ws : List (ℕ × Written)) (bytes : List ℕ) (n : ℕ) (type : MsgType)
    (k : Errno → Talk → Handled)
    → t.client.tcp_sock ≡ some fd
    → t.client.session_id ≤ max_session_id
    → t.writes ≡ (random, wrote sizeof_msg) ∷ ws
    → n ≤ max_string_length
    → n ≤ length bytes
    → write_then t bytes n type k
      ≡ k success (record t {
        writes = ws;
        handed = encoded random type t.client.session_id bytes n ∷ t.handed;
      })
write_then-whole t fd random ws bytes n type k opened in_range writes fits present =
    ap (λ x. write_next x t bytes n type k) writes
    ∙ ap (λ o. sent_then o t ws k)
        (write_pdu-whole t fd random bytes n type opened in_range fits present)
