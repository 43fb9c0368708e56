-- ===== src/Scenarios/Sessions.antt =====
-- A session of the server: two messages of a negotiation, and its replies.
use ietf_anima_signaling_pro.Base.{
  if_room, length, ℕ, ◌≡◌, refl, List, [], ◌∷◌, ◌++◌, zeros, strcpy, little, none, some, true,
  false, arith, memcpy,
}
use ietf_anima_signaling_pro.Errno.{success}
use ietf_anima_signaling_pro.Msg.{Msg, nego_msg, nego_end_msg, request_msg}
use ietf_anima_signaling_pro.Pdu.Carried.{Carries}
use ietf_anima_signaling_pro.Pdu.{wrote, sizeof_msg}
use ietf_anima_signaling_pro.GdnpOption.{
  ObjectiveOption, negotiation, accept, objective_to_bits, objective_parse_bits, parse_bits,
  value_field, option_type_code,
}
use ietf_anima_signaling_pro.GdnpOption.Roundtrip.{with_text}
use ietf_anima_signaling_pro.Content.{Content, assign}
use ietf_anima_signaling_pro.Session.{Session, processing, idle, session_end}
use ietf_anima_signaling_pro.Session.Run.{
  Asa, default_asa, dropped, begin, reply, option_type_is_synchronization, decrement_loop,
}
use ietf_anima_signaling_pro.Session.Run.Filter.{begin-second_nego}
use ietf_anima_signaling_pro.Session.Run.States.{final}
use ietf_anima_signaling_pro.GdnpOption.Uniform.{without_value}
use ietf_anima_signaling_pro.Session.Run.Reply.{reply-continues}
use ietf_anima_signaling_pro.Session.Run.Verdict.{reply-verdict}

-- Two offers of one negotiation: "5" with four rounds left, and "77" with two.
abbrev pub offer : ObjectiveOption
offer = with_text negotiation 4 0 (53 ∷ []) (0 ∷ [])

abbrev pub next_offer : ObjectiveOption
next_offer = with_text negotiation 2 0 (55 ∷ 55 ∷ []) (0 ∷ [])

abbrev pub offer_bits : List ℕ
offer_bits = 6 ∷ 0 ∷ 1 ∷ 0 ∷ 0 ∷ 4 ∷ 53 ∷ []

abbrev pub next_offer_bits : List ℕ
next_offer_bits = 6 ∷ 0 ∷ 2 ∷ 0 ∷ 0 ∷ 2 ∷ 55 ∷ 55 ∷ []

pub offer_printed : objective_to_bits little offer ≡ some offer_bits
unfolding objective_to_bits value_field option_type_code memcpy zeros
offer_printed = refl

pub next_offer_printed : objective_to_bits little next_offer ≡ some next_offer_bits
unfolding objective_to_bits value_field option_type_code memcpy zeros
next_offer_printed = refl

abbrev pub first_nego : Content
first_nego = record { type = nego_msg; body = offer_bits ++ zeros 993 }

abbrev pub second_nego : Content
second_nego = record { type = nego_msg; body = next_offer_bits ++ zeros 992 }

-- `last_content` before the first message, and after it: one byte was copied.
abbrev pub untouched : Content
untouched = record { type = request_msg; body = 9 ∷ 9 ∷ 9 ∷ [] }

abbrev pub remembered : Content
remembered = record { type = nego_msg; body = 6 ∷ 0 ∷ 9 ∷ [] }

pub assign_copies_one_byte : assign untouched first_nego ≡ some remembered
unfolding assign strcpy
assign_copies_one_byte = refl

abbrev pub waiting : Session
waiting = record {
  tcp_sock = some 7;
  session_id = 66;
  queue = second_nego ∷ [];
  cur_state = idle;
  idle_check = 0;
}

begin-second_nego_example :
    begin little (0 ∷ 0 ∷ []) (0 ∷ 0 ∷ []) waiting remembered
    ≡ some (dropped (record waiting { queue = []; idle_check = 1 }), remembered)
begin-second_nego_example =
    begin-second_nego little (0 ∷ 0 ∷ []) (0 ∷ 0 ∷ []) waiting untouched remembered [] offer
      next_offer offer_bits next_offer_bits (zeros 993) (zeros 992) offer_printed next_offer_printed
      refl assign_copies_one_byte refl

abbrev handled : Session
handled = record waiting { queue = []; cur_state = processing }

-- An agent that wants "9" and takes nothing else.
abbrev pub stubborn : Asa
stubborn = record { asa_geq_fn = λ a b. false; asa_negotiate_result = λ v. 57 ∷ 0 ∷ [] }

offer-final : final stubborn offer ≡ false
unfolding option_type_is_synchronization decrement_loop
offer-final = refl

reply-continues_example :
    (m : Msg) × (content : List ℕ) × (reply little stubborn 5 (wrote sizeof_msg) handled offer
      ≡ some (record {
        session = record handled { cur_state = idle; idle_check = 0 };
        code = success;
        handed = some m;
        end_thread = true;
      }))
    × Carries little m nego_msg 66 content
    × (length content ≡ 1000)
    × (objective_parse_bits little (1 ∷ 0 ∷ []) content
        ≡ if_room (57 ∷ []) (1 ∷ 0 ∷ []) (with_text negotiation 3 0 (57 ∷ []) (0 ∷ [])))
reply-continues_example =
    reply-continues little stubborn 5 handled 7 offer (57 ∷ []) [] (1 ∷ 0 ∷ []) (omega arith) refl
      (omega arith) (omega arith) refl (omega arith) (omega arith) (omega arith) offer-final

offer-accepted : final default_asa offer ≡ true
unfolding option_type_is_synchronization decrement_loop
offer-accepted = refl

not_synchronization : option_type_is_synchronization offer.type ≡ false
unfolding option_type_is_synchronization
not_synchronization = refl

reply-verdict_example :
    (m : Msg) × (content : List ℕ) × (reply little default_asa 5 (wrote sizeof_msg) handled offer
      ≡ some (record {
        session = record handled { cur_state = session_end };
        code = success;
        handed = some m;
        end_thread = false;
      }))
    × Carries little m nego_end_msg 66 content
    × (length content ≡ 1000)
    × ((chunk : List ℕ)
        → parse_bits little chunk content ≡ some (record { type = accept; len = 0; value = none }))
    × ((chunk : List ℕ) → objective_parse_bits little chunk content ≡ some (without_value accept))
reply-verdict_example =
    reply-verdict little default_asa 5 handled 7 offer (omega arith) refl (omega arith)
      not_synchronization offer-accepted
