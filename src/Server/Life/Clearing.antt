-- ===== src/Server/Life/Clearing.antt =====
-- What the end of a session leaves of the master.
use mathlib.Core.Option.{some-injective}
use ietf_anima_signaling_pro.Base.{
  subst, sym, ℕ, ◌/◌, ◌≡◌, refl, ◌∙◌, ap, ◌==◌, if◌then◌else◌, some, none, true, false, Option,
  arith, [], ◌∷◌, ◌+◌, ◌≤◌, Bool, ◌>>=◌, >>=-eq-some,
}
use ietf_anima_signaling_pro.Session.{Session}
use ietf_anima_signaling_pro.Server.Sessions.{SessionMap, clear_sessions}
use ietf_anima_signaling_pro.Server.Sessions.Map.{lookup, IsRising}
use ietf_anima_signaling_pro.Server.Sessions.Delivery.{clear_sessions-lookup}
use ietf_anima_signaling_pro.Pdu.{Descriptor}
use ietf_anima_signaling_pro.Server.Descriptors.{
  Looping, out_of_fuel, out_of_bounds, finished, clear_descriptors,
}
use ietf_anima_signaling_pro.Server.Descriptors.Halving.{clear_descriptors-halves}
use ietf_anima_signaling_pro.Server.Turn.{Master}
use ietf_anima_signaling_pro.Server.Turn.Lock.{IsTable}
use ietf_anima_signaling_pro.Server.Life.{cleared_by, clear_when_session_end, run_end}

-- The keys of a map after the loop are among those before, so they stay in order.
IsRising-lower : (k low : ℕ) (m : SessionMap) → low ≤ k → IsRising k m → IsRising low m
IsRising-lower k low [] h r = tt
IsRising-lower k low ((j, s) ∷ m) h r = (omega (arith, h, r.0), r.1)

-- One round of the loop.
kept-IsRising :
    (low j : ℕ) (s : Session) (same survives : Bool) (rest : Option SessionMap) (m' : SessionMap)
    → low ≤ j
    → ((r : SessionMap) → rest ≡ some r → IsRising (j + 1) r)
    → (if same then (if survives then rest else none) else (rest >>= λ r. some ((j, s) ∷ r)))
      ≡ some m'
    → IsRising low m'
kept-IsRising low j s true true rest m' below f h =
    IsRising-lower (j + 1) low m' (omega (arith, below)) (f m' h)
kept-IsRising low j s true false rest m' below f h = cc
kept-IsRising low j s false survives rest m' below f h =
    let (r, found, made) = >>=-eq-some rest _ h in
    subst (IsRising low) (some-injective _ _ made) (below, f r found)

pub clear_sessions-IsRising :
    (survives : Bool) (low id : ℕ) (m m' : SessionMap)
    → IsRising low m
    → clear_sessions survives id m ≡ some m'
    → IsRising low m'
unfolding clear_sessions
clear_sessions-IsRising survives low id [] m' r h = subst (IsRising low) (some-injective _ _ h) tt
clear_sessions-IsRising survives low id ((j, s) ∷ m) m' r h =
    kept-IsRising low j s (j == id) survives (clear_sessions survives id m) m' r.0
      (λ x. clear_sessions-IsRising survives (j + 1) id m x r.1) h

-- If the loop comes through, it has done what it does where the erased iterator leads on.
kept-survives :
    (j : ℕ) (s : Session) (same survives : Bool) (rest rest' : Option SessionMap) (m' : SessionMap)
    → ((r : SessionMap) → rest ≡ some r → rest' ≡ some r)
    → (if same then (if survives then rest else none) else (rest >>= λ r. some ((j, s) ∷ r)))
      ≡ some m'
    → (if same then rest' else (rest' >>= λ r. some ((j, s) ∷ r))) ≡ some m'
kept-survives j s true true rest rest' m' f h = f m' h
kept-survives j s true false rest rest' m' f h = cc
kept-survives j s false survives rest rest' m' f h =
    let (r, found, made) = >>=-eq-some rest _ h in rw (f r found) made

clear_sessions-survives :
    (survives : Bool) (id : ℕ) (m m' : SessionMap)
    → clear_sessions survives id m ≡ some m'
    → clear_sessions true id m ≡ some m'
unfolding clear_sessions
clear_sessions-survives survives id [] m' h = h
clear_sessions-survives survives id ((j, s) ∷ m) m' h =
    kept-survives j s (j == id) survives (clear_sessions survives id m) (clear_sessions true id m)
      m' (clear_sessions-survives survives id m) h

pub clear_sessions-entry :
    (survives : Bool) (id j : ℕ) (m m' : SessionMap)
    → clear_sessions survives id m ≡ some m'
    → lookup j m' ≡ (if id == j then none else lookup j m)
clear_sessions-entry survives id j m m' h =
    let (n, made, entry) = clear_sessions-lookup id m in
    subst (λ x. lookup j x ≡ (if id == j then none else lookup j m))
      (some-injective n m' (sym made ∙ clear_sessions-survives survives id m m' h)) (entry j)

-- What a session leaves that has come to the end of `run`.
pub record Cleared (id : ℕ) (m m' : Master) : Type 0 where
  pub entry : (j : ℕ) → lookup j m'.sessions ≡ (if id == j then none else lookup j m.sessions)
  pub halved : m'.table.accepted ≡ m.table.accepted / 2
  pub in_table : IsTable m'.table
  pub others :
      (m'.udp_sock ≡ m.udp_sock)
      × (m'.listen_sock ≡ m.listen_sock)
      × (m'.tcp_sock ≡ m.tcp_sock)
      × (m'.locked ≡ m.locked)

-- A session that has left its loop clears itself away, if the iterator that it has erased leads on
-- to the next session: `run` comes to its end, it closes the socket of the session, the session is
-- in the map no longer and every other is as before, and half of the accepted sockets are gone,
-- whoever they belong to. The master's own sockets stay as they are, so `tcp_sock` may be one that
-- has just been closed.
pub run_end-Cleared :
    (s : Session) (m : Master)
    → IsTable m.table
    → (m' : Master) × (run_end true s m ≡ some (s.tcp_sock, m')) × Cleared s.session_id m m'
unfolding run_end clear_when_session_end
run_end-Cleared s m t =
    let (u, ends, halved, size) =
      clear_descriptors-halves s.tcp_sock m.table (omega (arith, t.bounded, t.whole)) in
    let (left, cleared, entry) = clear_sessions-lookup s.session_id m.sessions in
    (
      record m { sessions = left; table = u },
      rw (cleared, ends) refl,
      record {
        entry = entry;
        halved = halved;
        in_table = record { whole = size ∙ t.whole; bounded = omega (arith, halved, t.bounded) };
        others = (refl, refl, refl, refl);
      },
    )

-- What the end of a session does, by the two loops.
pub record Ended (s : Session) (m m' : Master) : Type 0 where
  pub entry :
      (j : ℕ) → lookup j m'.sessions ≡ (if s.session_id == j then none else lookup j m.sessions)
  pub in_order : IsRising 0 m.sessions → IsRising 0 m'.sessions
  pub in_table : IsTable m.table → IsTable m'.table
  pub same_lock : m'.locked ≡ m.locked
  pub same_udp : m'.udp_sock ≡ m.udp_sock

finished-Ended :
    (s : Session) (m m' : Master) (survives : Bool) (left : SessionMap) (l : Looping)
    → clear_sessions survives s.session_id m.sessions ≡ some left
    → clear_descriptors (m.table.accepted + 1) s.tcp_sock 0 m.table ≡ l
    → cleared_by left m l ≡ some m'
    → Ended s m m'
finished-Ended s m m' survives left out_of_fuel p q h = cc
finished-Ended s m m' survives left out_of_bounds p q h = cc
finished-Ended s m m' survives left (finished u) p q h =
    subst (Ended s m) (some-injective _ _ h) (record {
      entry = λ j. clear_sessions-entry survives s.session_id j m.sessions left p;
      in_order = λ r. clear_sessions-IsRising survives 0 s.session_id m.sessions left r p;
      in_table = λ t. halved t;
      same_lock = refl;
      same_udp = refl;
    })
  where
    halved : IsTable m.table → IsTable u
    halved t =
        let (v, made, count, size) =
          clear_descriptors-halves s.tcp_sock m.table (omega (arith, t.bounded, t.whole)) in
        subst IsTable
          (ap (λ x. elim x [ finished z ↦ z | out_of_fuel ↦ u | out_of_bounds ↦ u ]) (sym made ∙ q))
          (record { whole = size ∙ t.whole; bounded = omega (arith, count, t.bounded) })

pub run_end-Ended :
    (survives : Bool) (s : Session) (m m' : Master) (closed : Descriptor)
    → run_end survives s m ≡ some (closed, m')
    → Ended s m m'
unfolding run_end clear_when_session_end
run_end-Ended survives s m m' closed h =
    let (n, cleared, made) =
      >>=-eq-some (clear_when_session_end survives s.session_id s.tcp_sock m) _ h in
    let (left, found, done) =
      >>=-eq-some (clear_sessions survives s.session_id m.sessions) _ cleared in
    finished-Ended s m m' survives left _ found refl
      (done ∙ ap (λ x. elim x [ none ↦ some n | some r ↦ some r.1 ]) made)
