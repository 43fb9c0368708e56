-- ===== src/Server/Life.antt =====
-- Server.cpp and ServerSession.cpp: the threads of a server over its master. The thread of `run`
-- takes its rounds, the threads of the sessions work on their sessions and, when these have ended,
-- clear them away, and the program calls `listen_negotiate`. The end of a session is one step, though
-- it takes no lock.
pub mod Clearing
pub mod Keys
pub mod Invariant
pub mod Stuck
pub mod Work
pub mod Cycle
use ietf_anima_signaling_pro.Base.{
  ◌==◌, if◌then◌else◌, ◌>>=◌, ℕ, ◌+◌, ◌≡◌, Endian, List, Option, none, some, Bool, true, false,
}
use ietf_anima_signaling_pro.Errno.{Errno, ok}
use ietf_anima_signaling_pro.Pdu.{Descriptor, read_pdu}
use ietf_anima_signaling_pro.Msg.{Decoded}
use ietf_anima_signaling_pro.Content.{Content}
use ietf_anima_signaling_pro.Session.{Session, session_end}
use ietf_anima_signaling_pro.Session.Run.{Asa}
use ietf_anima_signaling_pro.Session.System.{System, start, pushes}
use ietf_anima_signaling_pro.Session.System as Threads
use ietf_anima_signaling_pro.Server.Sessions.{
  SessionMap, Delivered, launched, hand_over, clear_sessions,
}
use ietf_anima_signaling_pro.Server.Sessions.Map.{lookup, replace}
use ietf_anima_signaling_pro.Server.Descriptors.{Looping, finished, clear_descriptors}
use ietf_anima_signaling_pro.Server.Turn.{Master, World, Select, Act, turn}
use ietf_anima_signaling_pro.Server.Setup.{listen_negotiate}

-- The master by the end of the loop over the sockets.
abbrev pub cleared_by : SessionMap → Master → Looping → Option Master
cleared_by sessions m (finished t) = some (record m { sessions = sessions; table = t })
cleared_by sessions m _ = none

-- The whole of `clear_when_session_end`: the sessions, then the sockets. `none`: a fault, or the
-- fuel of the loop over the sockets has run out.
unfoldable pub clear_when_session_end : Bool → ℕ → Descriptor → Master → Option Master
clear_when_session_end survives id tcp_sock m = do
  sessions ← clear_sessions survives id m.sessions
  cleared_by sessions m (clear_descriptors (m.table.accepted + 1) tcp_sock 0 m.table)

-- `run` of a session after its loop: the descriptor that `close_tcp` closes, and the master.
unfoldable pub run_end : Bool → Session → Master → Option (Descriptor × Master)
run_end survives s m = do
  m' ← clear_when_session_end survives s.session_id s.tcp_sock m
  some (s.tcp_sock, m')

-- `distribute` of a message that was read on `tcp_sock`.
abbrev pub received : Master → Decoded → SessionMap × Delivered
received m d =
    hand_over m.tcp_sock d.session_id d.type (record { type = d.type; body = d.content }) m.sessions

-- The session that is created for the request `d`.
abbrev pub content_of : Decoded → Content
content_of d = record { type = d.type; body = d.content }

-- A server with its threads: `local id` is what the threads of the session with the key `id` keep
-- for themselves. Its field `session` is not used: the session itself is in the master's map.
pub record Serving : Type 0 where
  pub master : Master
  pub local : ℕ → System

-- The session with the key `id`, with its threads.
abbrev pub threads_of : Serving → ℕ → Session → System
threads_of m id s = record (m.local id) { session = s }

abbrev pub with_local : ℕ → System → (ℕ → System) → ℕ → System
with_local id v local j = if id == j then v else local j

-- A new session starts without timer threads.
abbrev pub launch : Delivered → ℕ → System → (ℕ → System) → ℕ → System
launch launched id v local = with_local id v local
launch _ id v local = local

-- Only the server pushes.
unfoldable pub is_push : {e : Endian} → {asa : Asa} → {v u : System} → Threads.Step e asa v u → Bool
is_push (pushes c q) = true
is_push _ = false

-- One step of a thread, for one byte order and one agent.
pub data Step (Address : Type 0) (e : Endian) (asa : Asa) (m m' : Serving) : Type 0 where
  turns :
      (w : World Address) (s : Select) (act : Act Address)
      → turn e w s m.master ≡ some (m'.master, act)
      → m'.local ≡ m.local
      → Step Address e asa m m'
  -- A round of `run` hands a message to a session, and the byte that `distribute` copies past its
  -- two arrays does no harm: what arrives is the 1000 bytes of the message. `last` is what the
  -- memory of the new session's `last_content` holds.
  hands_over :
      (w : World Address) (d : Decoded) (last : Content)
      → m.master.locked ≡ false
      → read_pdu e m.master.tcp_sock w.reading w.stale ≡ ok d
      → m'.master ≡ record m.master { sessions = (received m.master d).0 }
      → m'.local
        ≡ launch
            (received m.master d).1
            d.session_id
            (start m.master.tcp_sock d.session_id (content_of d) last)
            m.local
      → Step Address e asa m m'
  -- One of the threads of the session with the key `id` takes a step.
  works :
      (id : ℕ) (v u : System)
      → lookup id m.master.sessions ≡ some v.session
      → v ≡ threads_of m id v.session
      → (step : Threads.Step e asa v u) → is_push step ≡ false
      → m'.master ≡ record m.master { sessions = replace id u.session m.master.sessions }
      → m'.local ≡ with_local id u m.local
      → Step Address e asa m m'
  -- The thread of `run` of the session, which has left its loop.
  ends :
      (id : ℕ) (s : Session) (survives : Bool) (closed : Descriptor)
      → lookup id m.master.sessions ≡ some s
      → (m.local id).exited ≡ true
      → run_end survives s m.master ≡ some (closed, m'.master)
      → m'.local ≡ m.local
      → Step Address e asa m m'
  listens :
      (sock : Descriptor) (bound listening : Bool) (code : Errno)
      → listen_negotiate sock bound listening m.master ≡ some (code, m'.master)
      → m'.local ≡ m.local
      → Step Address e asa m m'

pub data Reach (Address : Type 0) (e : Endian) (asa : Asa) (m : Serving) : Serving → Type 0 where
  here : Reach Address e asa m m
  next :
      {n u : Serving} → Reach Address e asa m n → Step Address e asa n u → Reach Address e asa m u
