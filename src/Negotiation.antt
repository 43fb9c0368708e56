-- ===== src/Negotiation.antt =====
-- Client_TCP.cpp: a client negotiates, from its REQUEST_MSG to the end. The calls of the system answer
-- from scripts: what is still to be written and to be read.
pub mod Course
pub mod Writes
pub mod Logs
pub mod Offer
pub mod Waiting
pub mod Verdict
pub mod Synchronized
pub mod Heard
pub mod Answered
pub mod AtOnce
pub mod Accepted
pub mod Begun
use ietf_anima_signaling_pro.Base.{
  ◌-◌, ◌>>=◌, ℕ, ◌+◌, ◌*◌, ◌^◌, ◌==◌, if◌then◌else◌, u8, u16, u32, Endian, List, [], ◌∷◌, memcpy,
  strlen, zeros, Option, none, some, Bool, true, false,
}
use ietf_anima_signaling_pro.Errno.{Errno, success, error, is_success}
use ietf_anima_signaling_pro.Msg.{
  MsgType, Msg, discovery_msg, response_msg, request_msg, nego_msg, nego_end_msg, wait_msg,
  max_string_length,
}
use ietf_anima_signaling_pro.Pdu.{Sending, Written, Reading, write_pdu}
use ietf_anima_signaling_pro.GdnpOption.{
  OptionType, GdnpOption, ObjectiveOption, accept, decline, waiting_time, negotiation, get_value,
  to_bits, objective_to_bits, parse_bits, objective_parse_bits, option_len_except_value,
  objective_len_except_value,
}
use ietf_anima_signaling_pro.Session.Run.{Asa}
use ietf_anima_signaling_pro.Client.{Client, ClientState, negoing, wait, log}

-- What `read` answers, what the buffer of `read_pdu` held before, and for the handling of the message
-- the blocks of the three calls of `malloc` and the local `send_buffer`.
pub record Incoming : Type 0 where
  pub reading : Reading
  pub stale : List ℕ
  pub option_chunk : List ℕ
  pub objective_chunk : List ℕ
  pub last_chunk : List ℕ
  pub send_buffer : List ℕ

-- A negotiation under way: the client, the caller's `buffer`, each write to come with the random
-- part of its message, what is to be read, and, the newest first, the messages that were handed to
-- the system and the values that were given to `do_configuration`.
pub record Talk : Type 0 where
  pub client : Client
  pub buffer : List ℕ
  pub writes : List (ℕ × Written)
  pub reads : List Incoming
  pub handed : List Msg
  pub configured : List (List ℕ)

-- What the next read is for.
pub data Awaiting : Type 0 where
  -- The first read after a message of one's own.
  unread : Awaiting
  -- The first read after a WAIT_MSG.
  after_wait_msg : Awaiting
  -- A read after a message of another session; `true`: a WAIT_MSG was handled before.
  other_session : Bool → Awaiting

-- How the handling of one message ends: with a code, before the next read, at a write that has no
-- answer in the script, or with what C leaves undefined.
pub data Handled : Type 0 where
  ends : Errno → Talk → Handled
  reads_on : Awaiting → Talk → Handled
  starved : Handled
  broken_off : Handled

-- What follows a `write_pdu`, which leaves the writes `rest`.
abbrev pub sent_then :
    Option Sending → Talk → List (ℕ × Written) → (Errno → Talk → Handled) → Handled
sent_then none t rest k = broken_off
sent_then (some s) t rest k = k s.code (record t { writes = rest; handed = log s.handed t.handed })

-- `write_pdu` of the client's session with the first of the answers.
abbrev pub write_next :
    List (ℕ × Written) → Talk → List ℕ → ℕ → MsgType → (Errno → Talk → Handled) → Handled
write_next [] t bytes n type k = starved
write_next ((random, w) ∷ rest) t bytes n type k =
    sent_then (write_pdu t.client.tcp_sock random w bytes n type t.client.session_id) t rest k

abbrev pub write_then : Talk → List ℕ → ℕ → MsgType → (Errno → Talk → Handled) → Handled
write_then t = write_next t.writes t

abbrev pub defined {ℓ} : {A : Type ℓ} → Option A → (A → Handled) → Handled
defined none k = broken_off
defined (some a) k = k a

abbrev pub with_client : Talk → Client → Talk
with_client t c = record t { client = c }

abbrev pub configure : List ℕ → Talk → Talk
configure value t = record t { configured = value ∷ t.configured }

-- The verdict of the client: an option without a value, in a NEGO_END_MSG.
unfoldable pub send_decision : Endian → Talk → OptionType → (Talk → Talk) → Handled
send_decision e t type k =
    defined (to_bits e (record { type = type; len = 0; value = none }))
      (λ bits. write_then t bits option_len_except_value nego_end_msg (λ code t'. ends code (k t')))

-- `nego_obj_opt2bits`: the loop count and the flag of the client become bytes.
unfoldable pub nego_obj_opt2bits : Endian → Client → List ℕ → ℕ → Option (List ℕ)
nego_obj_opt2bits e c value n = objective_to_bits e (record {
  base = record { type = negotiation; len = n; value = some value };
  loop_count = u8 c.loop_count;
  flag = u8 c.flag;
})

-- What a NEGO_MSG of the client carries: the whole of `send_buffer`.
unfoldable pub offer_bytes : Endian → Client → List ℕ → List ℕ → Option (List ℕ)
offer_bytes e c answer send_buffer = do
  n ← strlen answer
  bits ← nego_obj_opt2bits e c answer (u16 n)
  memcpy send_buffer bits (u16 n + objective_len_except_value)

-- `store_last_options(bytes, n)`.
unfoldable pub remember_first : ℕ → List ℕ → Talk → Option Talk
remember_first n bytes t = memcpy (zeros max_string_length) bytes n >>= λ block.
    some (with_client t (record t.client { last_top_options = block }))

-- After the write of an offer.
abbrev pub after_offer : List ℕ → Errno → Talk → Handled
after_offer bytes code t =
    defined (remember_first max_string_length bytes t)
      (λ u. if is_success code then reads_on unread u else ends code u)

-- A further offer, with the agent's value.
unfoldable pub send_offer : Endian → Incoming → Talk → List ℕ → Handled
unfolding offer_bytes remember_first
send_offer e i t answer =
    defined (offer_bytes e t.client answer i.send_buffer)
      (λ bytes. write_then t bytes max_string_length nego_msg (after_offer bytes))

unfoldable pub is_waiting_time : OptionType → Bool
is_waiting_time waiting_time = true
is_waiting_time _ = false

unfoldable pub is_accept : OptionType → Bool
is_accept accept = true
is_accept _ = false

-- `*value`.
abbrev pub first_byte : List ℕ → Option ℕ
first_byte [] = none
first_byte (b ∷ bs) = some b

-- The three cases of `do_negotiate`'s `switch`, and its default. `o` and `oo` are the two options that
-- the buffer was parsed to.
unfoldable pub handle :
    Endian → Asa → Incoming → Talk → GdnpOption → ObjectiveOption → MsgType → Handled
unfolding send_decision send_offer is_waiting_time is_accept
handle e asa i t o oo nego_msg =
    let t' = with_client t (record t.client { cur_states = negoing }) in
    let value = get_value oo.base in
    let answer = asa.asa_negotiate_result value in
    if asa.asa_geq_fn answer value
    then send_decision e t' accept (configure value)
    else if t.client.loop_count == 0
    then send_decision e t' decline (λ u. u)
    else send_offer e i t' answer
handle e asa i t o oo wait_msg =
    let t' = with_client t (record t.client { cur_states = wait }) in
    if is_waiting_time o.type
    then defined (first_byte (get_value o)) (λ seconds.
      reads_on after_wait_msg (with_client t' (record t'.client { recv_timeout = seconds })))
    else ends error t'
handle e asa i t o oo nego_end_msg =
    if is_accept o.type
    then defined (objective_parse_bits e i.last_chunk t.client.last_top_options)
        (λ last. ends success (configure (get_value last.base) t))
    else ends success t
handle e asa i t o oo _ = ends error t

-- `do_negotiate` on a message of the type `type` in the buffer.
unfoldable pub do_negotiate : Endian → Asa → Incoming → Talk → MsgType → Handled
unfolding handle
do_negotiate e asa i t type = defined (parse_bits e i.option_chunk t.buffer) (λ o.
    defined (objective_parse_bits e i.objective_chunk t.buffer) (λ oo.
      handle e asa i
        (with_client t
          (record t.client { loop_count = u32 (oo.loop_count + 2 ^ 32 - 1); flag = oo.flag }))
        o oo type))
