-- ===== src/Session/System/Halves.antt =====
-- What the first half of an iteration does to the state.
use ietf_anima_signaling_pro.Base.{
  ℕ, ◌≡◌, ◌≢◌, refl, sym, ◌∙◌, Endian, List, none, some, arith, inl, inr,
}
use ietf_anima_signaling_pro.Content.{Content}
use ietf_anima_signaling_pro.Session.{Session, processing, session_end, set_state}
use ietf_anima_signaling_pro.Session.Run.{Began, refused, began_session, take_up, begin}
use ietf_anima_signaling_pro.Session.Run.Filter.{begin-cases}
use ietf_anima_signaling_pro.Session.System.{current_of}

-- An ended session takes nothing up, and stays ended.
take_up-over :
    (e : Endian) (chunk chunk' : List ℕ) (s : Session) (c : Content)
    → s.cur_state ≡ session_end
    → take_up e chunk chunk' s c ≡ some (refused s)
unfolding take_up set_state
take_up-over e chunk chunk' s c h = ground arith

-- If an item leaves the session PROCESSING, its option is with the agent.
take_up-busy :
    (e : Endian) (chunk chunk' : List ℕ) (s : Session) (c : Content) (b : Began)
    → s.cur_state ≢ processing
    → take_up e chunk chunk' s c ≡ some b
    → (began_session s b).cur_state ≡ processing
    → current_of b ≢ none
unfolding take_up set_state
take_up-busy e chunk chunk' s c b i h k = ground arith

pub begin-over :
    (e : Endian) (chunk chunk' : List ℕ) (s : Session) (last : Content) (b : Began)
    (last' : Content)
    → s.cur_state ≡ session_end
    → begin e chunk chunk' s last ≡ some (b, last')
    → (current_of b ≡ none) × ((began_session s b).cur_state ≡ session_end)
begin-over e chunk chunk' s last b last' over h =
    elim (begin-cases e chunk chunk' s last b last' h) [
      | inl w ↦ rw w (refl, over)
      | inr (s', c, same, same_id, inl d) ↦ rw d (refl, same ∙ over)
      | inr (s', c, same, same_id, inr t) ↦ ground (arith, take_up-over e chunk chunk' s' c)
    ]

pub begin-busy :
    (e : Endian) (chunk chunk' : List ℕ) (s : Session) (last : Content) (b : Began)
    (last' : Content)
    → s.cur_state ≢ processing
    → begin e chunk chunk' s last ≡ some (b, last')
    → (began_session s b).cur_state ≡ processing
    → current_of b ≢ none
begin-busy e chunk chunk' s last b last' i h k =
    elim (begin-cases e chunk chunk' s last b last' h) [
      | inl w ↦ absurd (ground arith)
      | inr (s', c, same, same_id, inl d) ↦ absurd (ground arith)
      | inr (s', c, same, same_id, inr t) ↦
          take_up-busy e chunk chunk' s' c b (λ q. i (sym same ∙ q)) t (ground arith)
    ]
