-- ===== src/Server/Life/Work.antt =====
-- The map of a server while one of its sessions is at work.
use ietf_anima_signaling_pro.Base.{
  ℕ, ◌≡◌, refl, sym, ap, ◌∙◌, ◌==◌, if◌then◌else◌, Endian, Option, none, some, true, false, arith,
}
use ietf_anima_signaling_pro.Msg.{Decoded, request_msg}
use ietf_anima_signaling_pro.Session.{Session, new_session}
use ietf_anima_signaling_pro.Session.Run.{Asa}
use ietf_anima_signaling_pro.Session.System as Threads
use ietf_anima_signaling_pro.Session.System.{
  exits, start, after_begin, begins, replies, after_reply,
}
use ietf_anima_signaling_pro.Server.Sessions.{SessionMap, is_request}
use ietf_anima_signaling_pro.Server.Sessions.Map.{lookup, replace, lookup-replace}
use ietf_anima_signaling_pro.Server.Sessions.Delivery.{deliver, hand_over-Delivers}
use ietf_anima_signaling_pro.Server.Turn.{Master}
use ietf_anima_signaling_pro.Server.Life.{
  is_push, with_local, Serving, launched, content_of, System, received, works, Reach, next,
}
use ietf_anima_signaling_pro.Server.Life.Invariant.{IsServing}

-- The map with one entry in place.
abbrev pub put_session : Master → ℕ → Session → Master
put_session m id s = record m { sessions = replace id s m.sessions }

-- The map `n` is `m` with the session `s` under the id.
abbrev pub Holds : ℕ → Session → SessionMap → SessionMap → Type 0
Holds id s m n = (j : ℕ) → lookup j n ≡ (if id == j then some s else lookup j m)

pub same_id : (id : ℕ) → (id == id) ≡ true
same_id id = ground arith

pub Holds-found : (id : ℕ) (s : Session) (m n : SessionMap) → Holds id s m n → lookup id n ≡ some s
Holds-found id s m n h = h id ∙ ap (λ b. if b then some s else lookup id m) (same_id id)

pub Holds-replace :
    (id : ℕ) (s t : Session) (m n : SessionMap) → Holds id s m n → Holds id t m (replace id t n)
Holds-replace id s t m n h j =
    ground (arith, lookup-replace id j t s n (Holds-found id s m n h), h j)

pub received-Holds :
    (m : Master) (d : Decoded)
    → IsServing m
    → d.type ≡ request_msg
    → lookup d.session_id m.sessions ≡ none
    → Holds d.session_id
        (new_session m.tcp_sock d.session_id (content_of d))
        m.sessions
        (received m d).0
unfolding is_request
received-Holds m d i first absent j =
    (hand_over-Delivers m.tcp_sock m.sessions d.session_id (content_of d) i.in_map.rising).1.entry j
    ∙ ap
        (λ (o : Option Session).
          if d.session_id == j
          then (deliver m.tcp_sock d.session_id (content_of d) o).0
          else lookup j m.sessions)
        absent
    ∙ rw first refl

pub received-launched :
    (m : Master) (d : Decoded)
    → IsServing m
    → d.type ≡ request_msg
    → lookup d.session_id m.sessions ≡ none
    → (received m d).1 ≡ launched
unfolding is_request
received-launched m d i first absent =
    (hand_over-Delivers m.tcp_sock m.sessions d.session_id (content_of d) i.in_map.rising).0
    ∙ ap (λ (o : Option Session). (deliver m.tcp_sock d.session_id (content_of d) o).1) absent
    ∙ rw first refl

-- A thread of a session that is in the map works on it, from what its threads have kept.
pub worked :
    (Address : Type 0) (e : Endian) (asa : Asa) (b n : Serving) (before : SessionMap) (id : ℕ)
    (v u : System)
    → Reach Address e asa b n
    → n.local id ≡ v
    → Holds id v.session before n.master.sessions
    → (step : Threads.Step e asa v u) → is_push step ≡ false
    → Reach Address e asa b
        (record { master = put_session n.master id u.session; local = with_local id u n.local })
worked Address e asa b n before id v u r kept held step own = next r (
    works id v u (Holds-found id v.session before n.master.sessions held)
      (ap (λ (x : System). record x { session = v.session }) (sym kept)) step own refl refl)

pub with_local-same : (id : ℕ) (v : System) (local : ℕ → System) → with_local id v local id ≡ v
with_local-same id v local = ap (λ b. if b then v else local id) (same_id id)
