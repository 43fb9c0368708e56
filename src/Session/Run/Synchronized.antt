-- ===== src/Session/Run/Synchronized.antt =====
-- What the peer reads of a session's reply to a request for synchronization.
use ietf_anima_signaling_pro.Base.{
  if_room, true, Bool, false, ◌>>=◌, ℕ, ◌+◌, ◌-◌, ◌^◌, ◌≤◌, ◌<◌, ◌≡◌, refl, ap, ◌∙◌, Endian, List,
  ◌∷◌, ◌++◌, drop, length, length-append, length-zeros, zeros, IsText, Option, some, u8, arith,
  if◌then◌else◌,
}
use ietf_anima_signaling_pro.Errno.{success}
use ietf_anima_signaling_pro.Msg.{max_string_length, Msg, nego_end_msg, max_session_id}
use ietf_anima_signaling_pro.Msg.Codec.{encoded}
use ietf_anima_signaling_pro.Pdu.{Written, wrote, sizeof_msg}
use ietf_anima_signaling_pro.Pdu.Carried.{Carries, encoded-Carries}
use ietf_anima_signaling_pro.GdnpOption.{
  objective_to_bits, ObjectiveOption, synchronization, get_value, objective_parse_bits,
}
use ietf_anima_signaling_pro.GdnpOption.Roundtrip.{with_text}
use ietf_anima_signaling_pro.GdnpOption.Uniform.{objective_text}
use ietf_anima_signaling_pro.Session.{Sent, Session, idle, session_end, set_cur_state}
use ietf_anima_signaling_pro.Session.Run.{
  Asa, reply, send_value, decrement_loop, option_type_is_synchronization, ended,
}
use ietf_anima_signaling_pro.Session.Run.Reply.{send_value-text, send-nego_end}

chosen : (b : Bool) (x y : Option Sent) → b ≡ true → (if b then x else y) ≡ x
chosen true x y h = refl
chosen false x y h = cc

reply-at_once :
    (e : Endian) (asa : Asa) (random : ℕ) (w : Written) (s : Session) (o : ObjectiveOption)
    → o.type ≡ synchronization
    → reply e asa random w s o ≡ (
        send_value e random w
          (set_cur_state s idle)
          (decrement_loop o)
          (asa.asa_negotiate_result (get_value o.base))
          nego_end_msg
        >>= ended)
unfolding reply decrement_loop option_type_is_synchronization
reply-at_once e asa random w s o sync =
    chosen (option_type_is_synchronization o.type) _ _ (ap option_type_is_synchronization sync)

-- A request for synchronization is answered at once by the agent's value: if that is a string of 1
-- to 994 bytes, the session sends one NEGO_END_MSG and has ended. The peer that reads it, in the same
-- byte order, is given the session's id and, if the block of its parser has room for the text, a
-- synchronization option with the agent's text as its value, the flag of the request, and its loop
-- count less one, modulo 256.
pub reply-synchronization :
    (e : Endian) (asa : Asa) (random : ℕ) (s : Session) (fd : ℕ) (o : ObjectiveOption)
    (u r : List ℕ)
    → random < 2 ^ 32
    → s.tcp_sock ≡ some fd
    → s.session_id ≤ max_session_id
    → o.type ≡ synchronization
    → o.flag < 256
    → asa.asa_negotiate_result (get_value o.base) ≡ u ++ 0 ∷ r
    → IsText u
    → 0 < length u
    → length u ≤ 994
    → (m : Msg) × (content : List ℕ) × (reply e asa random (wrote sizeof_msg) s o
        ≡ some (record {
          session = record s { cur_state = session_end };
          code = success;
          handed = some m;
          end_thread = false;
        }))
      × Carries e m nego_end_msg s.session_id content
      × (length content ≡ max_string_length)
      × ((chunk : List ℕ)
          → objective_parse_bits e chunk content
            ≡ if_room u chunk (
                with_text synchronization
                  (u8 (o.loop_count + 255))
                  o.flag
                  u
                  (drop (length u) chunk)))
unfolding decrement_loop
reply-synchronization e asa random s fd o u r small sock sid sync hf answer text pos short =
    let (bits, printed, size, parsed) =
      objective_text e synchronization (u8 (o.loop_count + 255)) o.flag u (0 ∷ r) text pos
        (omega (arith, short)) (omega arith) hf in
    (
      encoded random nego_end_msg s.session_id bits (length bits),
      bits ++ zeros (1000 - length bits),
      reply-at_once e asa random (wrote 1012) s o sync
          ∙ ap
              (λ v.
                send_value e random (wrote 1012) (set_cur_state s idle) (decrement_loop o) v
                  nego_end_msg
                >>= ended)
              answer
          ∙ ap (λ x. x >>= ended)
              (send_value-text e random (wrote 1012) (set_cur_state s idle) (decrement_loop o) u r
                  bits nego_end_msg text (omega (arith, short))
                  (ap
                      (λ ty.
                        objective_to_bits e
                          (with_text ty (u8 (o.loop_count + 255)) o.flag u (0 ∷ r)))
                      sync
                    ∙ printed)
                  size
                ∙ send-nego_end random (set_cur_state s idle) fd bits refl sock sid
                    (omega (arith, size, short))),
      encoded-Carries e random nego_end_msg s.session_id bits small sid
          (omega (arith, size, short)),
      omega (
        arith,
        size,
        short,
        length-append bits (zeros (1000 - length bits)),
        length-zeros (1000 - length bits),
      ),
      λ chunk. parsed chunk (zeros (1000 - length bits)),
    )
