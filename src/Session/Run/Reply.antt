-- ===== src/Session/Run/Reply.antt =====
-- What the peer reads of a session's reply.
use ietf_anima_signaling_pro.Base.{
  if_room, length-zeros, ℕ, ◌+◌, ◌-◌, ◌^◌, ◌≤◌, ◌<◌, ◌≡◌, refl, ◌>>=◌, ap, ◌∙◌, Endian, List, ◌∷◌,
  ◌++◌, drop, length, length-append, zeros, IsText, strlen_text, Option, some, Bool, true, false,
  u8, u16, ◌==◌, not, ◌&&◌, ◌||◌, if◌then◌else◌, arith,
}
use ietf_anima_signaling_pro.Errno.{success}
use ietf_anima_signaling_pro.Msg.{
  MsgType, Msg, nego_msg, nego_end_msg, max_string_length, max_session_id,
}
use ietf_anima_signaling_pro.Msg.Codec.{encoded}
use ietf_anima_signaling_pro.Pdu.{Written, wrote, sizeof_msg, written_errno}
use ietf_anima_signaling_pro.Pdu.Transfer.{write_pdu-encoded}
use ietf_anima_signaling_pro.Pdu.Carried.{Carries, encoded-Carries}
use ietf_anima_signaling_pro.GdnpOption.{
  ObjectiveOption, get_value, objective_to_bits, objective_parse_bits,
}
use ietf_anima_signaling_pro.GdnpOption.Roundtrip.{with_text, objective_parse_bits-to_bits}
use ietf_anima_signaling_pro.Session.{Session, idle, session_end, set_cur_state, Sent, send}
use ietf_anima_signaling_pro.Session.Run.{
  Asa, reply, send_value, send_verdict, decrement_loop, answer_option,
  option_type_is_synchronization, ended,
}
use ietf_anima_signaling_pro.Session.Run.States.{final}

module _ (random : ℕ) (s : Session) (fd : ℕ) (bits : List ℕ) (i : s.cur_state ≡ idle)
    (open_sock : s.tcp_sock ≡ some fd) (in_range : s.session_id ≤ max_session_id)
    (fits : length bits ≤ max_string_length) where
  send-nego :
      send random (wrote sizeof_msg) s bits (length bits) nego_msg
      ≡ some (record {
        session = record s { cur_state = idle; idle_check = 0 };
        code = success;
        handed = some (encoded random nego_msg s.session_id bits (length bits));
        end_thread = true;
      })
  unfolding send written_errno
  send-nego =
      ground
        (arith, write_pdu-encoded fd random (wrote 1012) bits (length bits) nego_msg s.session_id)

  pub send-nego_end :
      send random (wrote sizeof_msg) s bits (length bits) nego_end_msg
      ≡ some (record {
        session = record s { cur_state = session_end };
        code = success;
        handed = some (encoded random nego_end_msg s.session_id bits (length bits));
        end_thread = false;
      })
  unfolding send written_errno
  send-nego_end =
      ground (
        arith,
        write_pdu-encoded fd random (wrote 1012) bits (length bits) nego_end_msg s.session_id,
      )

branch-nego :
    (sync geq over : Bool) (a b c : Option Sent)
    → (sync || (geq || over)) ≡ false
    → (if sync then a else if not geq && not over then b else c) ≡ b
branch-nego true geq over a b c h = cc
branch-nego false true over a b c h = cc
branch-nego false false true a b c h = cc
branch-nego false false false a b c h = refl

pub reply-goes_on :
    (e : Endian) (asa : Asa) (random : ℕ) (w : Written) (s : Session) (o : ObjectiveOption)
    → final asa o ≡ false
    → reply e asa random w s o
      ≡ send_value e random w
          (set_cur_state s idle)
          (decrement_loop o)
          (asa.asa_negotiate_result (get_value o.base))
          nego_msg
unfolding reply decrement_loop
reply-goes_on e asa random w s o h =
    branch-nego (option_type_is_synchronization o.type)
      (asa.asa_geq_fn (asa.asa_negotiate_result (get_value o.base)) (get_value o.base))
      (u8 (o.loop_count + 255) == 0)
      (send_value e random w (set_cur_state s idle) (decrement_loop o)
          (asa.asa_negotiate_result (get_value o.base)) nego_end_msg
        >>= ended)
      _ (send_verdict e random w (set_cur_state s idle) (decrement_loop o) >>= ended) h

-- The value of a reply that is the string `u`.
pub send_value-text :
    (e : Endian) (random : ℕ) (w : Written) (s : Session) (o : ObjectiveOption) (u r bits : List ℕ)
    (t : MsgType)
    → IsText u
    → length u < 2 ^ 16
    → objective_to_bits e (with_text o.type o.loop_count o.flag u (0 ∷ r)) ≡ some bits
    → length bits ≡ length u + 6
    → send_value e random w s o (u ++ 0 ∷ r) t ≡ send random w s bits (length bits) t
unfolding send_value answer_option
send_value-text e random w s o u r bits t text short printed size =
    let whole : u16 (length u) ≡ length u = omega arith in
    rw (strlen_text u r text, whole, printed, ← size)

-- If nothing ends the negotiation, the agent's answer is a string of 1 to 994 bytes, the session has
-- a TCP socket and the system takes the message whole, then the session sends one NEGO_MSG and is
-- IDLE again, with an end thread started. The peer that reads it, in the same byte order, is given
-- the session's id and 1000 bytes of content. If the block that `malloc` returns to the peer's
-- parser for two bytes has room for the answer (two bytes are all that is promised), the peer finds
-- an objective option of the same type and flag, with the agent's answer as the text of its value
-- and the loop count one less, modulo 256. If it has no room for it, the parser writes past the
-- block's end, and what it does is undefined.
pub reply-continues :
    (e : Endian) (asa : Asa) (random : ℕ) (s : Session) (fd : ℕ) (o : ObjectiveOption)
    (u r chunk : List ℕ)
    → random < 2 ^ 32
    → s.tcp_sock ≡ some fd
    → s.session_id ≤ max_session_id
    → o.flag < 256
    → asa.asa_negotiate_result (get_value o.base) ≡ u ++ 0 ∷ r
    → IsText u
    → 0 < length u
    → length u ≤ 994
    → final asa o ≡ false
    → (m : Msg) × (content : List ℕ) × (reply e asa random (wrote sizeof_msg) s o
        ≡ some (record {
          session = record s { cur_state = idle; idle_check = 0 };
          code = success;
          handed = some m;
          end_thread = true;
        }))
      × Carries e m nego_msg s.session_id content
      × (length content ≡ max_string_length)
      × (objective_parse_bits e chunk content
          ≡ if_room u chunk
              (with_text o.type (u8 (o.loop_count + 255)) o.flag u (drop (length u) chunk)))
unfolding decrement_loop
reply-continues e asa random s fd o u r chunk hr sock sid hf answer text pos short goes_on =
    let (bits, printed, size, parsed) =
      objective_parse_bits-to_bits e o.type (u8 (o.loop_count + 255)) o.flag u (0 ∷ r) chunk
        (zeros (1000 - (length u + 6))) text pos (omega arith) (omega arith) hf in
    (
      encoded random nego_msg s.session_id bits (length bits),
      bits ++ zeros (1000 - length bits),
      reply-goes_on e asa random (wrote 1012) s o goes_on
          ∙ ap
              (λ v.
                send_value e random (wrote 1012) (set_cur_state s idle) (decrement_loop o) v
                  nego_msg)
              answer
          ∙ send_value-text e random (wrote 1012) (set_cur_state s idle) (decrement_loop o) u r bits
              nego_msg text (omega arith) printed size
          ∙ send-nego random (set_cur_state s idle) fd bits refl sock sid (omega arith),
      encoded-Carries e random nego_msg s.session_id bits hr sid (omega arith),
      omega (
        arith,
        size,
        short,
        length-append bits (zeros (1000 - length bits)),
        length-zeros (1000 - length bits),
      ),
      rw size parsed,
    )
