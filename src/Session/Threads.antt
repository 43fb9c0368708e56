-- ===== src/Session/Threads.antt =====
-- `wait_thread_handler` and `end_thread_handler`: one turn of each thread's loop.
pub mod Timers
pub mod Waits
use ietf_anima_signaling_pro.Base.{
  ◌>>=◌, ℕ, ◌+◌, ◌*◌, ◌==◌, leb, if◌then◌else◌, Endian, store32, List, Option, none, some, Bool,
  true, false,
}
use ietf_anima_signaling_pro.Msg.{Msg, wait_msg}
use ietf_anima_signaling_pro.Pdu.{Written}
use ietf_anima_signaling_pro.GdnpOption.{GdnpOption, waiting_time, to_bits, option_len_except_value}
use ietf_anima_signaling_pro.Session.{
  Session, ServerState, idle, processing, session_end, set_cur_state, Sent, send,
}

abbrev pub wait_timeout_second : ℕ
wait_timeout_second = 10

abbrev pub processing_timeout_second : ℕ
processing_timeout_second = 8

abbrev pub end_timeout_second : ℕ
end_timeout_second = 20

unfoldable pub is_processing : ServerState → Bool
is_processing processing = true
is_processing _ = false

-- Where a wait thread stands, with its `total_sleep`: before the test of its loop, or asleep.
pub data WaitThread : Type 0 where
  testing asleep : ℕ → WaitThread
  wait_done : WaitThread

-- The option that a wait thread sends: a `uint32_t` of milliseconds, as it lies in memory.
abbrev pub wait_option : Endian → GdnpOption
wait_option e = record {
  type = waiting_time;
  len = 4;
  value = some (store32 e (wait_timeout_second * 1000));
}

-- What a turn leaves: the session, the thread, and the message handed to the system.
pub record WaitTurn : Type 0 where
  pub session : Session
  pub thread : WaitThread
  pub handed : Option Msg

-- `send` of the wait option; its code is not looked at.
unfoldable pub send_wait : Endian → ℕ → Written → Session → Option WaitTurn
send_wait e random w s = do
  bits ← to_bits e (wait_option e)
  r ← send random w s bits (4 + option_len_except_value) wait_msg
  some (record { session = r.session; thread = testing 0; handed = r.handed })

-- From the test to the sleep, or from the sleep to the test. The reads of the state after one
-- sleep are one step.
unfoldable pub wait_turn : Endian → ℕ → Written → Session → WaitThread → Option WaitTurn
unfolding is_processing
wait_turn e random w s (testing total) = some (record {
  session = s;
  thread = if is_processing s.cur_state then asleep (total + 1) else wait_done;
  handed = none;
})
wait_turn e random w s (asleep total) =
    if is_processing s.cur_state
    then (if leb processing_timeout_second total
        then send_wait e random w s
        else some (record { session = s; thread = testing total; handed = none }))
    else some (record { session = s; thread = wait_done; handed = none })
wait_turn e random w s wait_done = some (record { session = s; thread = wait_done; handed = none })

-- An end thread, with its `total_sleep`.
pub data EndThread : Type 0 where
  counting : ℕ → EndThread
  end_done : EndThread

-- One sleep of the end thread and what follows it, up to the next sleep or its end.
unfoldable pub end_turn : Session → EndThread → Session × EndThread
end_turn s (counting total) =
    if s.idle_check == 1
    then (record s { idle_check = 0 }, end_done)
    else if leb end_timeout_second (total + 1)
    then (set_cur_state s session_end, end_done)
    else (s, counting (total + 1))
end_turn s end_done = (s, end_done)
