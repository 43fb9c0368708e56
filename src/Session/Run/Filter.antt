-- ===== src/Session/Run/Filter.antt =====
-- What the filter in front of `set_state` lets through.
use ietf_anima_signaling_pro.Base.{
  none, Option, false, ◌>>=◌, ◌⊎◌, inl, inr, [], Bool, if◌then◌else◌, ℕ, ◌≡◌, refl, sym, ◌∙◌,
  Endian, List, ◌∷◌, ◌++◌, some, true, arith,
}
use ietf_anima_signaling_pro.Msg.{nego_msg}
use ietf_anima_signaling_pro.Content.{Content, content_eq, assign}
use ietf_anima_signaling_pro.Content.Duplicates.{content_eq-objective, content_eq-assign}
use ietf_anima_signaling_pro.GdnpOption.{ObjectiveOption, objective_to_bits}
use ietf_anima_signaling_pro.Session.{Session, queue_pop}
use ietf_anima_signaling_pro.Session.Run.{Began, waited, take_up, dropped, begin, filter_duplicate}

pub begin_dropped :
    (e : Endian) (chunk chunk' : List ℕ) (s : Session) (c last : Content) (q : List Content)
    → s.queue ≡ c ∷ q
    → content_eq c last ≡ some true
    → begin e chunk chunk' s last ≡ some (dropped (record s { queue = q; idle_check = 1 }), last)
unfolding begin filter_duplicate queue_pop
begin_dropped e chunk chunk' s c last q front same = ground arith

-- A negotiation message that follows another is thrown away: if the content that the session took
-- up last was a NEGO_MSG with an objective option, a NEGO_MSG at the front of the queue with an
-- objective option of the same type is dropped as a duplicate, whatever its value, its loop count
-- and its flag are. Nothing but the queue and `idle_check` changes.
pub begin-second_nego :
    (e : Endian) (chunk chunk' : List ℕ) (s : Session) (old kept : Content) (q : List Content)
    (o p : ObjectiveOption) (bits bits' rest rest' : List ℕ)
    → objective_to_bits e o ≡ some bits
    → objective_to_bits e p ≡ some bits'
    → o.type ≡ p.type
    → assign old (record { type = nego_msg; body = bits ++ rest }) ≡ some kept
    → s.queue ≡ record { type = nego_msg; body = bits' ++ rest' } ∷ q
    → begin e chunk chunk' s kept ≡ some (dropped (record s { queue = q; idle_check = 1 }), kept)
begin-second_nego e chunk chunk' s old kept q o p bits bits' rest rest' ho hp same copied front =
    begin_dropped e chunk chunk' s _ kept q front (
      content_eq-assign old _ kept _ copied
      ∙ content_eq-objective e nego_msg p o bits' bits rest' rest hp ho (sym same))

abbrev beside : Content → Began → Option (Began × Content)
beside kept b = some (b, kept)

kept_beside :
    (m : Option Began) (kept : Content) (b : Began) (last' : Content)
    → (m >>= beside kept) ≡ some (b, last')
    → m ≡ some b
kept_beside none kept b last' h = cc
kept_beside (some x) kept b last' h = ground arith

kept_before :
    (a : Option Content) (m : Option Began) (b : Began) (last' : Content)
    → (a >>= λ kept. m >>= beside kept) ≡ some (b, last')
    → m ≡ some b
kept_before none m b last' h = cc
kept_before (some kept) m b last' h = kept_beside m kept b last' h

tested :
    (t : Option Bool) (s : Session) (last : Content) (a : Option Content) (m : Option Began)
    (b : Began) (last' : Content)
    → (t >>= λ duplicate.
        if duplicate then beside last (dropped s) else (a >>= λ kept. m >>= beside kept))
      ≡ some (b, last')
    → (b ≡ dropped s) ⊎ (m ≡ some b)
tested none s last a m b last' h = cc
tested (some true) s last a m b last' h = inl (ground arith)
tested (some false) s last a m b last' h = inr (kept_before a m b last' h)

filter_duplicate-cases :
    (e : Endian) (chunk chunk' : List ℕ) (s : Session) (c last : Content) (b : Began)
    (last' : Content)
    → filter_duplicate e chunk chunk' s c last ≡ some (b, last')
    → (b ≡ dropped s) ⊎ (take_up e chunk chunk' s c ≡ some b)
unfolding filter_duplicate
filter_duplicate-cases e chunk chunk' s c last b last' h =
    tested (content_eq c last) s last (assign last c) (take_up e chunk chunk' s c) b last' h

-- The first half of an iteration finds the queue empty, or takes an item off it and drops it, or
-- takes it up; the state and the id are those of the session until then.
pub begin-cases :
    (e : Endian) (chunk chunk' : List ℕ) (s : Session) (last : Content) (b : Began)
    (last' : Content)
    → begin e chunk chunk' s last ≡ some (b, last')
    → (b ≡ waited)
      ⊎ ((s' : Session) × (c : Content) × (s'.cur_state ≡ s.cur_state)
          × (s'.session_id ≡ s.session_id)
          × ((b ≡ dropped s') ⊎ (take_up e chunk chunk' s' c ≡ some b)))
begin-cases e chunk chunk' s last b last' h = by_queue s.queue refl
  where
    by_queue :
        (q : List Content)
        → s.queue ≡ q
        → (b ≡ waited)
          ⊎ ((s' : Session) × (c : Content) × (s'.cur_state ≡ s.cur_state)
              × (s'.session_id ≡ s.session_id)
              × ((b ≡ dropped s') ⊎ (take_up e chunk chunk' s' c ≡ some b)))
    by_queue [] none_left = inl (unfold begin queue_pop in ground arith)
    by_queue (c ∷ q) front =
        let taken : filter_duplicate e chunk chunk' (record s { queue = q; idle_check = 1 }) c last
            ≡ some (b, last') =
          unfold begin queue_pop in ground arith in
        inr (
          record s { queue = q; idle_check = 1 },
          c,
          refl,
          refl,
          filter_duplicate-cases e chunk chunk' (record s { queue = q; idle_check = 1 }) c last b
              last' taken,
        )
