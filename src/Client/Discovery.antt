-- ===== src/Client/Discovery.antt =====
-- Client.cpp, `discover`: a discovery from its request to the address that it finds.
pub mod Asked
pub mod Unheard
pub mod Answered
use ietf_anima_signaling_pro.Base.{
  ◌>>=◌, ℕ, zero, suc, ◌+◌, ◌-◌, ◌%◌, ◌≤◌, ◌<◌, ◌≡◌, refl, ap, ◌∙◌, if◌then◌else◌, Endian, little,
  big, List, [], ◌∷◌, ◌++◌, length, take, take_all, drop, zeros, length-append, memcpy, memcpy_fits,
  strlen, Option, none, some, Bool, true, false, arith,
}
use ietf_anima_signaling_pro.Errno.{
  Errno, success, error, client_send_unexcepted_msg_type_err, client_recv_nothing_err,
}
use ietf_anima_signaling_pro.Msg.Codec.{encoded}
use ietf_anima_signaling_pro.Msg.{
  MsgType, Msg, response_msg, discovery_msg, max_session_id, Decoded,
}
use ietf_anima_signaling_pro.Pdu.{Descriptor, Written, wrote, sizeof_msg}
use ietf_anima_signaling_pro.GdnpOption.{
  OptionType, ObjectiveOption, locator, discovery, objective_to_bits, parse_bits, get_value,
  objective_len_except_value, value_field, option_type_code,
}
use ietf_anima_signaling_pro.Client.{
  Client, ClientState, off, ended, wait_response, Arrival, timed_out, Script, Run, done, pending,
  undefined, on_success, send, send_discover, store_last_options,
}
use ietf_anima_signaling_pro.Client.Receive.{recv, go_to}
use ietf_anima_signaling_pro.Client.Retry.{
  silence, whole, repeats, IsAsking, recv-nothing, send_until_bound-whole,
}

unfoldable pub is_response : MsgType → Bool
is_response response_msg = true
is_response _ = false

unfoldable pub is_locator : OptionType → Bool
is_locator locator = true
is_locator _ = false

-- The part of `discover` after `recv`: the caller hears of a failure of `recv` on its terminal only.
-- `chunk` is the block that `malloc` returns in `parse_bits`, and `is_address` says which texts
-- `inet_pton` converts: what it does not convert leaves the address as it was.
unfoldable pub after_recv : (List ℕ → Bool) → Endian → List ℕ → Run → Run
after_recv is_address e chunk (done success c s) = elim c.received [
  | none ↦ undefined
  | some d ↦
      if is_response d.type
      then elim (parse_bits e chunk d.content) [
        | none ↦ undefined
        | some o ↦
            if is_locator o.type
            then done success
                (record c {
                  cur_states = off;
                  nego_addr = if is_address (get_value o) then get_value o else c.nego_addr;
                })
                s
            else done error (go_to off c) s
      ]
      else done success (go_to off c) s
]
after_recv is_address e chunk (done code c s) = done success c s
after_recv is_address e chunk pending = pending
after_recv is_address e chunk undefined = undefined

-- The socket and the session id of a discovery.
abbrev pub renewed : Descriptor → ℕ → Client → Client
renewed sock random c = record c { session_id = random % (max_session_id + 1); udp_sock = sock }

-- The objective option of a discovery.
abbrev pub discovery_option : ObjectiveOption
discovery_option = record {
  base = record { type = discovery; len = 0; value = some (0 ∷ []) };
  loop_count = 0;
  flag = 0;
}

-- The local `buffer`, and the length of the string in it.
unfoldable pub discovery_text : Endian → List ℕ → Option (List ℕ × ℕ)
discovery_text e local = do
  bits ← objective_to_bits e discovery_option
  buffer ← memcpy local bits objective_len_except_value
  n ← strlen buffer
  some (buffer, n)

-- What is sent, and what follows.
unfoldable pub request_and_wait :
    (List ℕ → Bool) → Endian → List ℕ → List ℕ → Client → Script → Option (List ℕ × ℕ) → Run
unfolding after_recv
request_and_wait is_address e stale chunk c s none = undefined
request_and_wait is_address e stale chunk c s (some (buffer, n)) =
    on_success (send c s buffer n discovery_msg)
      (λ c' s'. after_recv is_address e chunk (recv e stale c' s'))

-- `discover` with a number and a socket from the system; `local` is the block of its `buffer`. What
-- it sends is that block as a string.
unfoldable pub discover :
    (List ℕ → Bool) → Endian → List ℕ → List ℕ → List ℕ → Descriptor → ℕ → Client → Script → Run
unfolding request_and_wait discovery_text
discover is_address e stale chunk local sock random c s =
    request_and_wait is_address e stale chunk (renewed sock random c) s (discovery_text e local)
