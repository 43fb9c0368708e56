-- ===== src/Session/Run/Verdict.antt =====
-- What the peer reads of a session's verdict.
use ietf_anima_signaling_pro.Base.{
  length-zeros, ℕ, ◌+◌, ◌-◌, ◌^◌, ◌≤◌, ◌<◌, ◌≡◌, refl, ◌>>=◌, ◌∙◌, Endian, List, ◌++◌, length,
  length-append, zeros, Option, none, some, Bool, true, false, u8, ◌==◌, not, ◌&&◌, ◌||◌,
  if◌then◌else◌, arith,
}
use ietf_anima_signaling_pro.Errno.{success}
use ietf_anima_signaling_pro.Msg.{Msg, nego_msg, nego_end_msg, max_string_length, max_session_id}
use ietf_anima_signaling_pro.Msg.Codec.{encoded}
use ietf_anima_signaling_pro.Pdu.{Written, wrote, sizeof_msg}
use ietf_anima_signaling_pro.Pdu.Carried.{Carries, encoded-Carries}
use ietf_anima_signaling_pro.GdnpOption.{
  OptionType, ObjectiveOption, accept, decline, get_value, objective_parse_bits, parse_bits,
}
use ietf_anima_signaling_pro.GdnpOption.Uniform.{without_value, empty_option}
use ietf_anima_signaling_pro.Session.{Session, idle, session_end, set_cur_state, Sent}
use ietf_anima_signaling_pro.Session.Run.{
  Asa, reply, send_value, send_verdict, decrement_loop, option_type_is_synchronization, ended,
}
use ietf_anima_signaling_pro.Session.Run.States.{final}
use ietf_anima_signaling_pro.Session.Run.Reply.{send-nego_end}

branch-verdict :
    (sync geq over : Bool) (a b c : Option Sent)
    → sync ≡ false
    → (sync || (geq || over)) ≡ true
    → (if sync then a else if not geq && not over then b else c) ≡ c
branch-verdict true geq over a b c k h = cc
branch-verdict false true over a b c k h = refl
branch-verdict false false true a b c k h = refl
branch-verdict false false false a b c k h = cc

reply-stops :
    (e : Endian) (asa : Asa) (random : ℕ) (w : Written) (s : Session) (o : ObjectiveOption)
    → option_type_is_synchronization o.type ≡ false
    → final asa o ≡ true
    → reply e asa random w s o
      ≡ (send_verdict e random w (set_cur_state s idle) (decrement_loop o) >>= ended)
unfolding reply decrement_loop
reply-stops e asa random w s o k h =
    branch-verdict (option_type_is_synchronization o.type)
      (asa.asa_geq_fn (asa.asa_negotiate_result (get_value o.base)) (get_value o.base))
      (u8 (o.loop_count + 255) == 0)
      (send_value e random w (set_cur_state s idle) (decrement_loop o)
          (asa.asa_negotiate_result (get_value o.base)) nego_end_msg
        >>= ended)
      (send_value e random w (set_cur_state s idle) (decrement_loop o)
        (asa.asa_negotiate_result (get_value o.base)) nego_msg)
      _ k h

-- The verdict on a loop count: `Decline` where it is 1 and so becomes 0, `Accept` otherwise.
abbrev pub verdict : ℕ → OptionType
verdict loop_count = if u8 (loop_count + 255) == 0 then decline else accept

-- If the option is not one of synchronization, and the agent accepts the value or the decremented
-- loop count is 0, the session sends one NEGO_END_MSG and has ended. The peer that reads it is given
-- the session's id and an option without a value: `Decline` exactly if the loop count was 1 modulo
-- 256, whatever the agent says, and `Accept` otherwise. Read as an objective option, it has no value
-- either, and the loop count and the flag 0.
pub reply-verdict :
    (e : Endian) (asa : Asa) (random : ℕ) (s : Session) (fd : ℕ) (o : ObjectiveOption)
    → random < 2 ^ 32
    → s.tcp_sock ≡ some fd
    → s.session_id ≤ max_session_id
    → option_type_is_synchronization o.type ≡ false
    → final asa o ≡ true
    → (m : Msg) × (content : List ℕ) × (reply e asa random (wrote sizeof_msg) s o
        ≡ some (record {
          session = record s { cur_state = session_end };
          code = success;
          handed = some m;
          end_thread = false;
        }))
      × Carries e m nego_end_msg s.session_id content
      × (length content ≡ max_string_length)
      × ((chunk : List ℕ)
          → parse_bits e chunk content
            ≡ some (record { type = verdict o.loop_count; len = 0; value = none }))
      × ((chunk : List ℕ)
          → objective_parse_bits e chunk content ≡ some (without_value (verdict o.loop_count)))
unfolding decrement_loop send_verdict
reply-verdict e asa random s fd o hr sock sid k stops =
    let (bits, printed, size, parsed, parsed') = empty_option e (verdict o.loop_count) in
    (
      encoded random nego_end_msg s.session_id bits (length bits),
      bits ++ zeros (1000 - length bits),
      reply-stops e asa random (wrote 1012) s o k stops
          ∙ rw (
            printed,
            ← size,
            send-nego_end random (set_cur_state s idle) fd bits refl sock sid (omega arith),
          ),
      encoded-Carries e random nego_end_msg s.session_id bits hr sid (omega arith),
      omega (
        arith,
        size,
        length-append bits (zeros (1000 - length bits)),
        length-zeros (1000 - length bits),
      ),
      λ chunk. rw size (parsed chunk (zeros 996)),
      λ chunk. rw size (parsed' chunk),
    )
