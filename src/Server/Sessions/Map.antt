-- ===== src/Server/Sessions/Map.antt =====
-- Lookup in the map after each operation, and the order of its keys.
use ietf_anima_signaling_pro.Base.{
  ℕ, ◌+◌, ◌≤◌, ◌<◌, ◌≡◌, refl, ◌==◌, if◌then◌else◌, [], ◌∷◌, Option, none, some, true, false, arith,
}
use ietf_anima_signaling_pro.Msg.{MsgType}
use ietf_anima_signaling_pro.Content.{Content}
use ietf_anima_signaling_pro.Session.{Session, queue_push}
use ietf_anima_signaling_pro.Server.Sessions.{
  SessionMap, insert, find_and_push, old_session, queued, is_request,
}

unfoldable pub lookup : ℕ → SessionMap → Option Session
lookup k [] = none
lookup k ((j, s) ∷ m) = if j == k then some s else lookup k m

-- The keys rise strictly, from above `low` if there is one.
abbrev pub IsRising : ℕ → SessionMap → Type 0
IsRising low [] = Unit {0}
IsRising low ((j, s) ∷ m) = (low ≤ j) × IsRising (j + 1) m

pub lookup-insert :
    (k j : ℕ) (s : Session) (m : SessionMap)
    → lookup k m ≡ none
    → lookup j (insert k s m) ≡ (if k == j then some s else lookup j m)
unfolding lookup insert
lookup-insert k j s [] h = ground arith
lookup-insert k j s ((i, t) ∷ m) h = ground (arith, lookup-insert k j s m)

pub insert-IsRising :
    (low k : ℕ) (s : Session) (m : SessionMap)
    → low ≤ k
    → IsRising low m
    → IsRising low (insert k s m)
unfolding insert
insert-IsRising low k s [] h r = (h, tt)
insert-IsRising low k s ((j, t) ∷ m) h r = ground (arith, insert-IsRising (j + 1) k s m)

-- A key below the first is not there.
pub lookup-below : (k low : ℕ) (m : SessionMap) → k < low → IsRising low m → lookup k m ≡ none
unfolding lookup
lookup-below k low [] h r = refl
lookup-below k low ((j, s) ∷ m) h r = ground (arith, lookup-below k (j + 1) m)

-- What the loop of `distribute` does, by what the map holds for the id.
pub find_and_push-none :
    (id : ℕ) (type : MsgType) (c : Content) (m : SessionMap)
    → lookup id m ≡ none
    → find_and_push id type c m ≡ none
unfolding lookup find_and_push
find_and_push-none id type c [] h = refl
find_and_push-none id type c ((j, s) ∷ m) h = ground (arith, find_and_push-none id type c m)

pub find_and_push-old :
    (id : ℕ) (type : MsgType) (c : Content) (m : SessionMap) (s : Session)
    → lookup id m ≡ some s
    → is_request type ≡ true
    → find_and_push id type c m ≡ some (m, old_session)
unfolding lookup find_and_push
find_and_push-old id type c [] s h k = cc
find_and_push-old id type c ((j, t) ∷ m) s h k = ground (arith, find_and_push-old id type c m s)

-- `put` of a session over one that is there.
unfoldable pub replace : ℕ → Session → SessionMap → SessionMap
replace k s [] = []
replace k s ((j, t) ∷ m) = if j == k then (j, s) ∷ m else (j, t) ∷ replace k s m

pub find_and_push-queued :
    (id : ℕ) (type : MsgType) (c : Content) (m : SessionMap) (s : Session)
    → lookup id m ≡ some s
    → is_request type ≡ false
    → find_and_push id type c m ≡ some (replace id (queue_push s c) m, queued)
unfolding lookup find_and_push replace
find_and_push-queued id type c [] s h k = cc
find_and_push-queued id type c ((j, t) ∷ m) s h k =
    ground (arith, find_and_push-queued id type c m s)

pub lookup-replace :
    (k j : ℕ) (s t : Session) (m : SessionMap)
    → lookup k m ≡ some t
    → lookup j (replace k s m) ≡ (if k == j then some s else lookup j m)
unfolding lookup replace
lookup-replace k j s t [] h = cc
lookup-replace k j s t ((i, u) ∷ m) h = ground (arith, lookup-replace k j s t m)

pub replace-IsRising :
    (low k : ℕ) (s : Session) (m : SessionMap) → IsRising low m → IsRising low (replace k s m)
unfolding replace
replace-IsRising low k s [] r = tt
replace-IsRising low k s ((j, t) ∷ m) r = ground (arith, replace-IsRising (j + 1) k s m)
