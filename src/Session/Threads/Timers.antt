-- ===== src/Session/Threads/Timers.antt =====
-- When the two threads act.
use ietf_anima_signaling_pro.Base.{
  ℕ, zero, suc, ◌+◌, ◌<◌, ◌≡◌, ◌≢◌, refl, leb, if◌then◌else◌, arith,
}
use ietf_anima_signaling_pro.Session.{Session, session_end, set_cur_state}
use ietf_anima_signaling_pro.Session.Threads.{
  EndThread, counting, end_done, end_turn, end_timeout_second,
}

-- `k` seconds of an end thread over a session that nobody else changes.
abbrev pub end_seconds : ℕ → Session → EndThread → Session × EndThread
end_seconds zero s t = (s, t)
end_seconds (suc k) s t = let (s', t') = end_turn s t in end_seconds k s' t'

end_seconds-done : (k : ℕ) (s : Session) → end_seconds k s end_done ≡ (s, end_done)
unfolding end_turn
end_seconds-done zero s = refl
end_seconds-done (suc k) s = end_seconds-done k s

end_seconds-counting :
    (k total : ℕ) (s : Session)
    → s.idle_check ≢ 1
    → total < 20
    → end_seconds k s (counting total) ≡ (
        if leb 20 (total + k)
        then (set_cur_state s session_end, end_done)
        else (s, counting (total + k)))
unfolding end_turn
end_seconds-counting zero total s i h = ground arith
end_seconds-counting (suc k) total s i h = ground (
  arith,
  end_seconds-done k (set_cur_state s session_end),
  end_seconds-counting k (total + 1) s i,
)

-- An end thread that is created for a session in which no message is taken up, so that its
-- `idle_check` stays other than 1, leaves the session alone for 19 seconds and from the 20th on has
-- ended it, once.
pub end_seconds-idle :
    (k : ℕ) (s : Session)
    → s.idle_check ≢ 1
    → end_seconds k s (counting 0) ≡ (
        if leb end_timeout_second k
        then (set_cur_state s session_end, end_done)
        else (s, counting k))
end_seconds-idle k s i = ground (arith, end_seconds-counting k 0 s i)

-- A message that has been taken up when the thread wakes stops it for good: it resets `idle_check`
-- and never ends the session.
pub end_seconds-stopped :
    (k total : ℕ) (s : Session)
    → s.idle_check ≡ 1
    → end_seconds (suc k) s (counting total) ≡ (record s { idle_check = 0 }, end_done)
unfolding end_turn
end_seconds-stopped k total s i = ground (arith, end_seconds-done k (record s { idle_check = 0 }))
