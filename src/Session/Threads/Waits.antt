-- ===== src/Session/Threads/Waits.antt =====
-- How often a wait thread sends.
use ietf_anima_signaling_pro.Base.{
  ◌>>=◌, ℕ, zero, suc, ◌+◌, ◌/◌, ◌%◌, ◌≤◌, ◌<◌, ◌≡◌, refl, ap, leb, Endian, little, big, List,
  length, zeros, memcpy, Option, none, some, arith, Bool-cases, inl, inr,
}
use ietf_anima_signaling_pro.Msg.{Msg, wait_msg, max_session_id}
use ietf_anima_signaling_pro.Msg.Codec.{encoded}
use ietf_anima_signaling_pro.Pdu.{Written, wrote, sizeof_msg, written_errno}
use ietf_anima_signaling_pro.Pdu.Transfer.{write_pdu-encoded}
use ietf_anima_signaling_pro.GdnpOption.{to_bits, value_field, option_type_code}
use ietf_anima_signaling_pro.Session.{Session, processing, send}
use ietf_anima_signaling_pro.Session.Threads.{
  WaitThread, testing, asleep, wait_turn, wait_option, send_wait, processing_timeout_second,
}

abbrev one_if_some : Option Msg → ℕ
one_if_some none = 0
one_if_some (some m) = 1

-- `k` sleeps of a wait thread: where it stands, and how many messages it has sent.
abbrev pub wait_seconds : Endian → ℕ → Written → ℕ → Session → WaitThread → Option (WaitThread × ℕ)
wait_seconds e random w zero s t = some (t, 0)
wait_seconds e random w (suc k) s t = do
  a ← wait_turn e random w s t
  b ← wait_turn e random w a.session a.thread
  rest ← wait_seconds e random w k b.session b.thread
  some (rest.0, one_if_some a.handed + one_if_some b.handed + rest.1)

wait_bits :
    (e : Endian) → (bits : List ℕ) × (to_bits e (wait_option e) ≡ some bits) × (length bits ≡ 8)
unfolding to_bits value_field option_type_code memcpy zeros
wait_bits little = (_, refl, refl)
wait_bits big = (_, refl, refl)

module _ (e : Endian) (random : ℕ) (s : Session) (fd : ℕ) (busy : s.cur_state ≡ processing)
    (open_sock : s.tcp_sock ≡ some fd) (in_range : s.session_id ≤ max_session_id) where
  pub send_wait-sent :
      (bits : List ℕ)
      → to_bits e (wait_option e) ≡ some bits
      → length bits ≡ 8
      → send_wait e random (wrote sizeof_msg) s
        ≡ some (record {
          session = s;
          thread = testing 0;
          handed = some (encoded random wait_msg s.session_id bits 8);
        })
  unfolding send_wait send written_errno
  send_wait-sent bits printed size =
      rw printed
        (ground (arith, write_pdu-encoded fd random (wrote 1012) bits 8 wait_msg s.session_id))

  to_sleep :
      (total : ℕ)
      → wait_turn e random (wrote sizeof_msg) s (testing total)
        ≡ some (record { session = s; thread = asleep (total + 1); handed = none })
  unfolding wait_turn
  to_sleep total = ground arith

  -- One sleep: the count goes up, or a message is sent and it starts again.
  to_test :
      (t : ℕ)
      → t ≤ 8
      → (out : Option Msg) × (wait_turn e random (wrote sizeof_msg) s (asleep t)
          ≡ some (record { session = s; thread = testing (t % 8); handed = out }))
        × (one_if_some out ≡ t / 8)
  unfolding wait_turn
  to_test t h = elim (Bool-cases (leb 8 t)) [
    | inl full ↦
        (let (bits, printed, size) = wait_bits e in
          (
            some (encoded random wait_msg s.session_id bits 8),
            ground (arith, send_wait-sent bits printed size),
            ground arith,
          ))
    | inr short ↦ (none, ground arith, ground arith)
  ]

  -- While the session is PROCESSING, over an open socket that takes whole messages, a wait thread
  -- sends one WAIT_MSG every 8 seconds: after `k` seconds, as many as 8 fits into the seconds since
  -- it started.
  pub wait_seconds-count :
      (k total : ℕ)
      → total < processing_timeout_second
      → wait_seconds e random (wrote sizeof_msg) k s (testing total)
        ≡ some (testing ((total + k) % 8), (total + k) / 8)
  wait_seconds-count zero total h = ap some (λ i. (testing (rest i), none_sent i))
    where
      rest : total ≡ (total + 0) % 8
      rest = omega arith

      none_sent : 0 ≡ (total + 0) / 8
      none_sent = omega arith
  wait_seconds-count (suc k) total h =
      let (out, turned, count) = to_test (total + 1) (omega arith) in
      let later = wait_seconds-count k ((total + 1) % 8) (omega arith) in
      rw (to_sleep total, turned, later, count) (ap some (λ i. (testing (place i), sum i)))
    where
      place : ((total + 1) % 8 + k) % 8 ≡ (total + suc k) % 8
      place = omega arith

      sum : 0 + (total + 1) / 8 + ((total + 1) % 8 + k) / 8 ≡ (total + suc k) / 8
      sum = omega arith
