-- ===== src/Scenarios/Halts.antt =====
-- A session over time: a negotiation that halts, and what a session has sent.
use ietf_anima_signaling_pro.Base.{
  ◌≡◌, refl, ap, subst, [], ◌∷◌, zeros, List, little, none, some, false, Every,
}
use ietf_anima_signaling_pro.GdnpOption.{negotiation}
use ietf_anima_signaling_pro.Content.{Content}
use ietf_anima_signaling_pro.Session.{idle, queue_push}
use ietf_anima_signaling_pro.Session.Run.{default_asa}
use ietf_anima_signaling_pro.Session.Threads.{counting, wait_done}
use ietf_anima_signaling_pro.Session.System.{System, Reach, pushes}
use ietf_anima_signaling_pro.Session.System.Stall.{Fed, fed, unfed}
use ietf_anima_signaling_pro.Session.System.Offers.{IsOffer, unattended, second_offer-stalls}
use ietf_anima_signaling_pro.Session.System.Sends.{IsReply}
use ietf_anima_signaling_pro.Session.System.Replies.{Reach-IsReply}
use ietf_anima_signaling_pro.Scenarios.Sessions.{
  offer, next_offer, offer_bits, next_offer_bits, second_nego, untouched, remembered, waiting,
  stubborn, offer_printed, next_offer_printed, assign_copies_one_byte,
}
use ietf_anima_signaling_pro.Scenarios.Threads.{request, garbage, answered, answer_reached}

-- The first offer has been answered by one of the server's own.
abbrev countered : System
countered = record {
  session = record waiting { queue = [] };
  last = remembered;
  current = none;
  waits = wait_done ∷ [];
  enders = counting 3 ∷ [];
  sent = [];
  exited = false;
}

abbrev halted : System
halted = unattended little stubborn countered []

second-IsOffer : IsOffer little negotiation second_nego
second-IsOffer = (next_offer, next_offer_bits, zeros 992, next_offer_printed, refl, refl)

-- The client offers once more.
abbrev halted_again : System
halted_again = record halted { session = queue_push halted.session second_nego }

abbrev front_of : List Content → Content
front_of [] = second_nego
front_of (c ∷ q) = c

halted-Fed : Fed little stubborn (IsOffer little negotiation) halted halted_again
unfolding queue_push
halted-Fed = fed unfed (pushes second_nego refl) (λ c q.
    subst (IsOffer little negotiation) (ap (λ (v : System). front_of v.session.queue) q)
      second-IsOffer)

second_offer-stalls_example :
    Reach little stubborn countered halted
    × (halted_again.sent ≡ [])
    × (halted_again.session.cur_state ≡ idle)
    × (halted_again.exited ≡ false)
second_offer-stalls_example =
    second_offer-stalls little stubborn countered halted_again untouched second_nego offer
      offer_bits (zeros 993) [] 3 refl refl refl refl tt refl offer_printed assign_copies_one_byte
      second-IsOffer halted-Fed

Reach-IsReply_example : Every (IsReply 66) answered.sent
Reach-IsReply_example =
    Reach-IsReply little default_asa (some 7) 66 request garbage answered answer_reached
