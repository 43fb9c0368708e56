-- ===== src/Scenarios/Lives.antt =====
-- A server over time: rounds, sessions and their ends.
use ietf_anima_signaling_pro.Base.{ℕ, ◌≡◌, refl, [], ◌∷◌, little, none, some, true, false, arith}
use ietf_anima_signaling_pro.Errno.{success}
use ietf_anima_signaling_pro.Pdu.Sockets.{server_tcp_init}
use ietf_anima_signaling_pro.Session.{Session, session_end}
use ietf_anima_signaling_pro.Session.Run.{default_asa}
use ietf_anima_signaling_pro.Session.System.{System}
use ietf_anima_signaling_pro.Server.Sessions.{clear_sessions}
use ietf_anima_signaling_pro.Server.Sessions.Map.{lookup}
use ietf_anima_signaling_pro.Server.Descriptors.{clear_descriptors, clear_round, shift_left, fd_at}
use ietf_anima_signaling_pro.Server.Turn.{
  Master, ready, timed_out, turn, unserved, blocked, with_lock, watchable, client_accepted, serve,
  serve_listen, fd_put,
}
use ietf_anima_signaling_pro.Server.Setup.{listen_negotiate}
use ietf_anima_signaling_pro.Server.Life.{
  Serving, run_end, clear_when_session_end, here, next, ends, listens, turns,
}
use ietf_anima_signaling_pro.Server.Life.Clearing.{Cleared, run_end-Cleared}
use ietf_anima_signaling_pro.Server.Life.Invariant.{IsServing, Reach-IsServing}
use ietf_anima_signaling_pro.Server.Life.Stuck.{older_socket-stops}
use ietf_anima_signaling_pro.Scenarios.Threads.{started}
use ietf_anima_signaling_pro.Scenarios.Masters.{outside, quiet, only}
use ietf_anima_signaling_pro.Scenarios.Setups.{
  constructed, initialised, entries, new_master-constructed, server_init-initialised,
}

-- The session 5, on the socket 7, has left its loop.
abbrev over_5 : Session
over_5 = record {
  tcp_sock = some 7;
  session_id = 5;
  queue = [];
  cur_state = session_end;
  idle_check = 0;
}

-- Four clients are connected, and one session is left.
abbrev four_connected : Master
four_connected = record quiet {
  table = record { fds = some 5 ∷ some 6 ∷ some 7 ∷ some 8 ∷ some 0 ∷ []; accepted = 4 };
  sessions = (5, over_5) ∷ [];
}

run_end-Cleared_example :
    (m' : Master) × (run_end true over_5 four_connected ≡ some (some 7, m'))
    × Cleared 5 four_connected m'
run_end-Cleared_example =
    run_end-Cleared over_5 four_connected (record { whole = refl; bounded = omega arith })

-- The server listens, and accepts a client.
abbrev listening : Master
listening = record initialised { listen_sock = some 4 }

-- The threads of every session have left their loops.
abbrev pub threads : ℕ → System
threads id = record started { exited = true }

abbrev pub served : Master → Serving
served m = record { master = m; local = threads }

abbrev pub joined : Master
joined = record listening {
  tcp_sock = some 9;
  table = record { fds = some 9 ∷ some 0 ∷ some 0 ∷ some 0 ∷ some 0 ∷ []; accepted = 1 };
}

starts_to_listen : listen_negotiate (some 4) true true initialised ≡ some (success, listening)
unfolding listen_negotiate server_tcp_init
starts_to_listen = refl

first_accepted : turn little outside (ready (only 4)) listening ≡ some (joined, client_accepted)
unfolding turn serve serve_listen watchable fd_put
first_accepted = refl

Reach-IsServing_example : IsServing joined
Reach-IsServing_example =
    Reach-IsServing ℕ little default_asa constructed.table.fds entries constructed
      (served initialised) (served joined) (some 3) false success refl new_master-constructed
      server_init-initialised
      (next (next here (listens (some 4) true true success starts_to_listen refl))
        (turns outside (ready (only 4)) client_accepted first_accepted refl))

-- The session 5 is cleared away while the server waits for its lock.
abbrev with_session : Master
with_session = record quiet { sessions = (5, over_5) ∷ [] }

abbrev without_session : Master
without_session = record quiet {
  table = record { fds = some 5 ∷ some 6 ∷ some 0 ∷ some 0 ∷ some 0 ∷ []; accepted = 1 };
  sessions = [];
  locked = true;
}

clears : run_end true over_5 (with_lock true with_session) ≡ some (some 7, without_session)
unfolding run_end clear_when_session_end clear_sessions clear_descriptors clear_round shift_left
    fd_at
clears = refl

found_5 : lookup 5 with_session.sessions ≡ some over_5
unfolding lookup
found_5 = refl

older_socket-stops_example :
    (turn little outside (ready (only 5)) with_session
      ≡ some (with_lock true with_session, unserved))
    × (turn little outside timed_out without_session ≡ some (without_session, blocked))
    × (lookup 66 without_session.sessions ≡ none)
unfolding watchable lookup
older_socket-stops_example =
    older_socket-stops ℕ little default_asa outside outside (only 5) timed_out with_session threads
      (served without_session) 3 66 refl refl refl refl refl refl refl
      (next here (ends 5 over_5 true (some 7) found_5 refl clears refl))
