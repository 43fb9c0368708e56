-- ===== src/Client/Discovery/Asked.antt =====
-- Client.cpp, `discover`: the request of a discovery, and what follows it.
use ietf_anima_signaling_pro.Base.{
  Bool, ℕ, ◌≤◌, ◌≡◌, refl, ap, ◌∙◌, Endian, little, big, List, [], ◌∷◌, ◌++◌, length, take,
  take_all, drop, zeros, strncpy, length-append, memcpy, memcpy_fits, strlen, some, arith,
}
use ietf_anima_signaling_pro.Errno.{success}
use ietf_anima_signaling_pro.Msg.Codec.{encoded}
use ietf_anima_signaling_pro.Msg.{discovery_msg, max_session_id}
use ietf_anima_signaling_pro.Pdu.{Descriptor, Written, wrote, sizeof_msg}
use ietf_anima_signaling_pro.GdnpOption.{
  discovery, objective_parse_bits, copy_value, option_type_of, objective_to_bits, value_field,
  option_type_code,
}
use ietf_anima_signaling_pro.GdnpOption.Uniform.{without_value}
use ietf_anima_signaling_pro.Client.{
  Client, off, wait_response, Script, Run, done, on_success, send, send_discover,
  store_last_options,
}
use ietf_anima_signaling_pro.Client.Receive.{recv}
use ietf_anima_signaling_pro.Client.Retry.{IsAsking, send_until_bound-whole}
use ietf_anima_signaling_pro.Client.Discovery.{
  after_recv, renewed, discovery_option, discovery_text, request_and_wait, discover,
}

-- The first six bytes of the buffer, by byte order.
pub asked : Endian → List ℕ
asked little = 5 ∷ 0 ∷ 0 ∷ 0 ∷ 0 ∷ 0 ∷ []
asked big = 0 ∷ 5 ∷ 0 ∷ 0 ∷ 0 ∷ 0 ∷ []

pub asked_length : Endian → ℕ
asked_length little = 1
asked_length big = 0

discovery_bits : (e : Endian) → objective_to_bits e discovery_option ≡ some (asked e)
unfolding asked objective_to_bits value_field option_type_code zeros memcpy
discovery_bits little = refl
discovery_bits big = refl

asked-size : (e : Endian) → length (asked e) ≡ 6
unfolding asked
asked-size little = omega arith
asked-size big = omega arith

asked_text :
    (e : Endian) (rest : List ℕ) → strlen (take 6 (asked e) ++ rest) ≡ some (asked_length e)
unfolding asked asked_length strlen
asked_text little rest = refl
asked_text big rest = refl

-- What the client remembers of its request, to repeat it.
pub repeated : Endian → List ℕ
repeated little = 5 ∷ zeros 999
repeated big = zeros 1000

stored :
    (e : Endian) (rest : List ℕ)
    → memcpy (zeros 1000) (asked e ++ rest) (asked_length e) ≡ some (repeated e)
unfolding asked asked_length repeated memcpy zeros
stored little rest = refl
stored big rest = refl

repeated_text :
    (e : Endian)
    → (strlen (repeated e) ≡ some (asked_length e))
      × (asked_length e ≤ length (repeated e))
      × (asked_length e ≤ 1)
unfolding repeated asked_length strlen zeros
repeated_text little = (refl, omega arith, omega arith)
repeated_text big = (refl, omega arith, omega arith)

discovery_text-asked :
    (e : Endian) (local : List ℕ)
    → 6 ≤ length local
    → discovery_text e local ≡ some (asked e ++ drop 6 local, asked_length e)
unfolding discovery_text objective_to_bits
discovery_text-asked e local h =
    rw
      (
        discovery_bits e,
        memcpy_fits local (asked e) 6 h (omega (arith, asked-size e)),
        asked_text e (drop 6 local),
      )
      (ap (λ x. some (x ++ drop 6 local, asked_length e))
        (take_all 6 (asked e) (omega (arith, asked-size e))))

-- The client after its request.
abbrev pub asking_client : Endian → Client → Client
asking_client e c = record c { last_top_options = repeated e; cur_states = wait_response }

pub asking_client-IsAsking :
    (e : Endian) (fd : ℕ) (c : Client)
    → c.udp_sock ≡ some fd
    → c.session_id ≤ max_session_id
    → IsAsking fd (asked_length e) (asking_client e c)
asking_client-IsAsking e fd c opened in_range =
    let (text, present, small) = repeated_text e in
    record {
      opened = opened;
      asking = refl;
      in_range = in_range;
      text = text;
      short = omega (arith, small);
      present = present;
    }

-- The request, from the state OFF.
pub send-off :
    (e : Endian) (fd r : ℕ) (c : Client) (rest : List ℕ) (s : Script) (ws : List (ℕ × Written))
    → c.udp_sock ≡ some fd
    → c.cur_states ≡ off
    → c.session_id ≤ max_session_id
    → s.writes ≡ (r, wrote sizeof_msg) ∷ ws
    → send c s (asked e ++ rest) (asked_length e) discovery_msg
      ≡ done success (asking_client e c) (record {
        writes = ws;
        arrivals = s.arrivals;
        handed = encoded r discovery_msg c.session_id (asked e ++ rest) (asked_length e) ∷ s.handed;
      })
unfolding send send_discover store_last_options
send-off e fd r c rest s ws opened is_off in_range w =
    let (text, present, small) = repeated_text e in
    ground (
      arith,
      is_off,
      w,
      stored e rest,
      send_until_bound-whole fd (asked_length e) r c (asked e ++ rest) ws s.arrivals s.handed opened
          in_range (omega (arith, small))
          (omega (arith, small, asked-size e, length-append (asked e) rest)),
    )

request_and_wait-sent :
    (is_address : List ℕ → Bool) (e : Endian) (stale chunk : List ℕ) (c : Client) (s : Script)
    (buffer : List ℕ) (n : ℕ) (r : Run)
    → send c s buffer n discovery_msg ≡ r
    → request_and_wait is_address e stale chunk c s (some (buffer, n))
      ≡ on_success r (λ c' s'. after_recv is_address e chunk (recv e stale c' s'))
unfolding request_and_wait
request_and_wait-sent is_address e stale chunk c s buffer n r h =
    ap (λ x. on_success x (λ c' s'. after_recv is_address e chunk (recv e stale c' s'))) h

pub discover-sent :
    (is_address : List ℕ → Bool) (e : Endian) (stale chunk local : List ℕ) (sock : Descriptor)
    (number : ℕ) (c : Client) (s : Script) (r : Run)
    → 6 ≤ length local
    → send (renewed sock number c) s (asked e ++ drop 6 local) (asked_length e) discovery_msg ≡ r
    → discover is_address e stale chunk local sock number c s
      ≡ on_success r (λ c' s'. after_recv is_address e chunk (recv e stale c' s'))
unfolding discover
discover-sent is_address e stale chunk local sock number c s r room h =
    ap (request_and_wait is_address e stale chunk (renewed sock number c) s)
      (discovery_text-asked e local room)
    ∙ request_and_wait-sent is_address e stale chunk (renewed sock number c) s _ _ r h

-- What it remembers, on a little-endian machine, is a discovery option without a value.
pub objective_parse_bits-repeated :
    (chunk : List ℕ)
    → objective_parse_bits little chunk (repeated little) ≡ some (without_value discovery)
unfolding repeated objective_parse_bits copy_value option_type_of zeros strncpy
objective_parse_bits-repeated chunk = refl
