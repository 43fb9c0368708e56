-- ===== src/Negotiation/Waiting.antt =====
-- The WAIT_MSG of a session's wait thread, as the client's `do_negotiate` takes it.
use ietf_anima_signaling_pro.Base.{
  suc, subst, ℕ, ◌+◌, ◌-◌, ◌^◌, ◌≤◌, ◌<◌, ◌≡◌, refl, ap, ◌∙◌, Endian, little, big, List, [], ◌∷◌,
  ◌++◌, length, memcpy, strncpy, zeros, some, arith, u32,
}
use ietf_anima_signaling_pro.Msg.{Msg, wait_msg, max_session_id}
use ietf_anima_signaling_pro.Msg.Codec.{encoded}
use ietf_anima_signaling_pro.Pdu.{wrote, sizeof_msg}
use ietf_anima_signaling_pro.Pdu.Carried.{Carries, encoded-Carries}
use ietf_anima_signaling_pro.GdnpOption.{
  get_value, value_field, option_type_of, option_type_code, copy_value, ObjectiveOption,
  waiting_time, to_bits, parse_bits, objective_parse_bits,
}
use ietf_anima_signaling_pro.Session.{Session, processing}
use ietf_anima_signaling_pro.Session.Threads.{testing, wait_option, send_wait}
use ietf_anima_signaling_pro.Session.Threads.Waits.{send_wait-sent}
use ietf_anima_signaling_pro.Session.Run.{Asa}
use ietf_anima_signaling_pro.Client.{Client, wait}
use ietf_anima_signaling_pro.Negotiation.{
  handle, is_waiting_time, Incoming, Talk, after_wait_msg, reads_on, with_client, do_negotiate,
}

-- The seconds that the client sets SO_RCVTIMEO to: the first byte of 10000, in memory.
abbrev pub client_timeout : Endian → ℕ
client_timeout little = 16
client_timeout big = 0

four_bytes : (xs : List ℕ) → 4 ≤ length xs → (a b c d : ℕ) × (r : List ℕ) × (xs ≡ a ∷ b ∷ c ∷ d ∷ r)
four_bytes (a ∷ b ∷ c ∷ d ∷ r) p = (a, b, c, d, r, refl)
four_bytes [] p = absurd (omega arith)
four_bytes (a ∷ []) p = absurd (omega arith)
four_bytes (a ∷ b ∷ []) p = absurd (omega arith)
four_bytes (a ∷ b ∷ c ∷ []) p = absurd (omega arith)

-- The option's bits, and what both parsers make of them.
parsed_wait :
    (e : Endian) (rest : List ℕ)
    → (bits : List ℕ) × (to_bits e (wait_option e) ≡ some bits)
      × (length bits ≡ 8)
      × ((a b c d a' b' c' d' : ℕ) (r r' : List ℕ)
          → (v : List ℕ) × (oo : ObjectiveOption) × (parse_bits e
                (a ∷ b ∷ c ∷ d ∷ r)
                (bits ++ 0 ∷ rest)
              ≡ some (record { type = waiting_time; len = 4; value = some (client_timeout e ∷ v) }))
            × (objective_parse_bits e (a' ∷ b' ∷ c' ∷ d' ∷ r') (bits ++ 0 ∷ rest) ≡ some oo))
unfolding to_bits parse_bits objective_parse_bits value_field memcpy zeros option_type_of
    option_type_code copy_value strncpy
parsed_wait little rest = (_, refl, refl, λ a b c d a' b' c' d' r r'. (_, _, refl, refl))
parsed_wait big rest = (_, refl, refl, λ a b c d a' b' c' d' r r'. (_, _, refl, refl))

-- The client after the message, whose first bytes are also parsed as the option `oo`.
abbrev patient : Endian → ObjectiveOption → Client → Client
patient e oo c = record c {
  cur_states = wait;
  loop_count = u32 (oo.loop_count + 2 ^ 32 - 1);
  flag = oo.flag;
  recv_timeout = client_timeout e;
}

zeros-suc : (n : ℕ) → zeros (suc n) ≡ 0 ∷ zeros n
unfolding zeros
zeros-suc n = refl

wait_option-Carries :
    (e : Endian) (random sid : ℕ) (bits : List ℕ)
    → random < 2 ^ 32
    → sid ≤ max_session_id
    → length bits ≡ 8
    → Carries e (encoded random wait_msg sid bits 8) wait_msg sid (bits ++ 0 ∷ zeros 991)
wait_option-Carries e random sid bits small in_range size =
    subst (λ z. Carries e (encoded random wait_msg sid bits 8) wait_msg sid (bits ++ z))
      (zeros-suc 991)
      (subst
        (λ n.
          Carries e (encoded random wait_msg sid bits n) wait_msg sid (bits ++ zeros (1000 - n)))
        size (encoded-Carries e random wait_msg sid bits small in_range (omega (arith, size))))

do_negotiate-patient :
    (e : Endian) (asa : Asa) (i : Incoming) (t : Talk) (oo : ObjectiveOption) (v : List ℕ)
    → parse_bits e i.option_chunk t.buffer
      ≡ some (record { type = waiting_time; len = 4; value = some (client_timeout e ∷ v) })
    → objective_parse_bits e i.objective_chunk t.buffer ≡ some oo
    → do_negotiate e asa i t wait_msg
      ≡ reads_on after_wait_msg (with_client t (patient e oo t.client))
unfolding do_negotiate handle is_waiting_time get_value
do_negotiate-patient e asa i t oo v first second = rw (first, second) refl

-- A wait thread of a PROCESSING session, over an open socket that takes whole messages, hands one
-- WAIT_MSG of the session to the system. A client of the same byte order that has it in its buffer,
-- and blocks of at least four bytes from `malloc`, waits for the next message with SO_RCVTIMEO set
-- to 16 seconds in the little-endian order, and in the big-endian order to 0, which is no limit;
-- its state is WAIT.
pub send_wait-do_negotiate :
    (e : Endian) (random : ℕ) (s : Session) (fd : ℕ) (asa : Asa) (i : Incoming) (t : Talk)
    → random < 2 ^ 32
    → s.cur_state ≡ processing
    → s.tcp_sock ≡ some fd
    → s.session_id ≤ max_session_id
    → 4 ≤ length i.option_chunk
    → 4 ≤ length i.objective_chunk
    → (m : Msg) × (content : List ℕ) × (send_wait e random (wrote sizeof_msg) s
        ≡ some (record { session = s; thread = testing 0; handed = some m }))
      × Carries e m wait_msg s.session_id content
      × (c : Client) × (do_negotiate e asa i (record t { buffer = content }) wait_msg
          ≡ reads_on after_wait_msg (record t { client = c; buffer = content }))
      × (c.recv_timeout ≡ client_timeout e)
      × (c.cur_states ≡ wait)
send_wait-do_negotiate e random s fd asa i t small busy opened in_range room room' =
    let (bits, printed, size, parsed) = parsed_wait e (zeros 991) in
    let (a, b, c, d, r, p) = four_bytes i.option_chunk room in
    let (a', b', c', d', r', p') = four_bytes i.objective_chunk room' in
    let (v, oo, first, second) = parsed a b c d a' b' c' d' r r' in
    (
      encoded random wait_msg s.session_id bits 8,
      bits ++ 0 ∷ zeros 991,
      send_wait-sent e random s fd busy opened in_range bits printed size,
      wait_option-Carries e random s.session_id bits small in_range size,
      patient e oo t.client,
      do_negotiate-patient e asa i (record t { buffer = bits ++ 0 ∷ zeros 991 }) oo v
          (ap (λ x. parse_bits e x (bits ++ 0 ∷ zeros 991)) p ∙ first)
          (ap (λ x. objective_parse_bits e x (bits ++ 0 ∷ zeros 991)) p' ∙ second),
      refl,
      refl,
    )
