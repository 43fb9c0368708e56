-- ===== src/Session/System/Offers.antt =====
-- Offers that follow an offer: from the drop of the second one to the end of the last timer.
use ietf_anima_signaling_pro.Base.{
  ℕ, ◌≡◌, refl, ◌∙◌, Endian, List, [], ◌∷◌, ◌++◌, none, some, false, Every, append-Every,
}
use ietf_anima_signaling_pro.Msg.{nego_msg}
use ietf_anima_signaling_pro.Content.{Content, assign}
use ietf_anima_signaling_pro.Content.Duplicates.{content_eq-objective, content_eq-assign}
use ietf_anima_signaling_pro.GdnpOption.{OptionType, ObjectiveOption, objective_to_bits}
use ietf_anima_signaling_pro.Session.{Session, idle, queue_push}
use ietf_anima_signaling_pro.Session.Run.{Asa, dropped, begin}
use ietf_anima_signaling_pro.Session.Run.Filter.{begin_dropped}
use ietf_anima_signaling_pro.Session.Threads.{EndThread, counting, end_done, end_turn}
use ietf_anima_signaling_pro.Session.System.{
  System, after_begin, pushes, begins, end_turns, Reach, here, next,
}
use ietf_anima_signaling_pro.Session.System.Stall.{
  IsRepeat, IsStalled, Fed, unfed, fed, Fed-IsStalled,
}

-- A NEGO_MSG with an objective option of the type `t`, whatever follows the option in the body.
abbrev pub IsOffer : Endian → OptionType → Content → Type 0
IsOffer e t c =
    (o : ObjectiveOption) × (bits : List ℕ) × (rest : List ℕ) × (objective_to_bits e o ≡ some bits)
    × (o.type ≡ t)
    × (c ≡ record { type = nego_msg; body = bits ++ rest })

offer-IsRepeat :
    (e : Endian) (o : ObjectiveOption) (bits rest : List ℕ) (old kept c : Content)
    → objective_to_bits e o ≡ some bits
    → assign old (record { type = nego_msg; body = bits ++ rest }) ≡ some kept
    → IsOffer e o.type c
    → IsRepeat kept c
offer-IsRepeat e o bits rest old kept c printed copied (p, bits', rest', printed', same, q) = rw q (
    content_eq-assign old _ kept _ copied
    ∙ content_eq-objective e nego_msg p o bits' bits rest' rest printed' printed same)

module _ (e : Endian) (asa : Asa) where
  Fed-weaken :
      (allowed allowed' : Content → Type 0) (v w : System)
      → ((c : Content) → allowed c → allowed' c)
      → Fed e asa allowed v w
      → Fed e asa allowed' v w
  Fed-weaken allowed allowed' v w f unfed = unfed
  Fed-weaken allowed allowed' v w f (fed {w = u} r st a) =
      fed (Fed-weaken allowed allowed' v u f r) st (λ c q. f c (a c q))

  -- What the drop of an offer and the end thread `counting` leave.
  abbrev pub unattended : System → List EndThread → System
  unattended v front = record v {
    session = record v.session { queue = []; idle_check = 0 };
    current = none;
    enders = front ++ end_done ∷ [];
  }

  -- The offer is pushed, the loop drops it, and the end thread wakes.
  drops :
      (v : System) (front : List EndThread) (total : ℕ) (c : Content)
      → v.exited ≡ false
      → v.current ≡ none
      → v.session.queue ≡ []
      → v.enders ≡ front ++ counting total ∷ []
      → IsRepeat v.last c
      → Reach e asa v (unattended v front)
  unfolding after_begin queue_push end_turn
  drops v front total c running free empty timer again =
      next
        (next (next here (pushes c refl))
          (begins [] [] (dropped popped) v.last running free taken refl))
        (end_turns front [] (counting total) timer refl)
    where
      pushed : System
      pushed = record v { session = queue_push v.session c }

      popped : Session
      popped = record v.session { queue = []; idle_check = 1 }

      taken : begin e [] [] pushed.session v.last ≡ some (dropped popped, v.last)
      taken = begin_dropped e [] [] pushed.session c v.last [] (rw empty refl) again

  -- A negotiation can come to a halt for good at the second offer of the client. A session waits in
  -- IDLE, its queue empty, and has taken up an offer with a negotiation message last; of its end
  -- threads one still counts. Then the push of another offer of the same option type, the loop that
  -- drops it as a duplicate, and the turn of the end thread that follows lead to a state in which
  -- no thread is left that would end the session. From there, as long as nothing but such offers
  -- comes in, whatever they hold and however the threads interleave, the session sends nothing
  -- more, stays in IDLE and does not leave its loop.
  pub second_offer-stalls :
      (v u : System) (old c : Content) (o : ObjectiveOption) (bits rest : List ℕ)
      (front : List EndThread) (total : ℕ)
      → v.exited ≡ false
      → v.current ≡ none
      → v.session.cur_state ≡ idle
      → v.session.queue ≡ []
      → Every (λ t. t ≡ end_done) front
      → v.enders ≡ front ++ counting total ∷ []
      → objective_to_bits e o ≡ some bits
      → assign old (record { type = nego_msg; body = bits ++ rest }) ≡ some v.last
      → IsOffer e o.type c
      → Fed e asa (IsOffer e o.type) (unattended v front) u
      → Reach e asa v (unattended v front)
        × (u.sent ≡ v.sent)
        × (u.session.cur_state ≡ idle)
        × (u.exited ≡ false)
  second_offer-stalls v u old c o bits rest front total running free in_idle empty ended timer
        printed copied offer r =
      let again : (d : Content) → IsOffer e o.type d → IsRepeat v.last d =
        λ d. offer-IsRepeat e o bits rest old v.last d printed copied in
      let stalled : IsStalled (unattended v front) = record {
        running = running;
        free = refl;
        in_idle = in_idle;
        repeats = tt;
        no_timer = append-Every (λ t. t ≡ end_done) front (end_done ∷ []) ended (refl, tt);
      } in
      let (i, (sent, last)) =
        Fed-IsStalled e asa (unattended v front) u stalled
          (Fed-weaken (IsOffer e o.type) (IsRepeat v.last) (unattended v front) u again r) in
      (drops v front total c running free empty timer (again c offer), sent, i.in_idle, i.running)
