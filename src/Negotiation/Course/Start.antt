-- ===== src/Negotiation/Course/Start.antt =====
-- Client_TCP.cpp: `send_tcp`, `negotiate` and `synchronize`, and `client_tcp_init`.
pub mod Tries
use ietf_anima_signaling_pro.Base.{
  ◌>>=◌, ℕ, ◌+◌, ◌-◌, ◌^◌, ◌%◌, ◌==◌, ltb, if◌then◌else◌, u8, u16, u32, Endian, List, [], ◌∷◌,
  memcpy, strlen, Option, none, some, Bool, true, false,
}
use ietf_anima_signaling_pro.Errno.{
  is_success, Errno, success, error, client_send_unexcepted_msg_type_err,
  client_unexcepted_state_err,
}
use ietf_anima_signaling_pro.Msg.{MsgType, request_msg, max_session_id, max_string_length}
use ietf_anima_signaling_pro.Pdu.{Descriptor, write_pdu}
use ietf_anima_signaling_pro.Pdu.Sockets.{client_tcp_init, Converted, SockAddr, sock_addr_equal}
use ietf_anima_signaling_pro.GdnpOption.{
  OptionType, ObjectiveOption, negotiation, synchronization, get_value, objective_to_bits,
  objective_parse_bits, objective_len_except_value,
}
use ietf_anima_signaling_pro.Session.Run.{Asa}
use ietf_anima_signaling_pro.Client.{Client, ClientState, off, max_try_times, log}
use ietf_anima_signaling_pro.Negotiation.{
  Sending, Incoming, Talk, unread, with_client, configure, remember_first,
}
use ietf_anima_signaling_pro.Negotiation.Course.{Course, ended, pending, undefined, converse}

module _ {Ip : Type 0} where
  -- `client_tcp_init` on the client.
  unfoldable pub tcp_init : Descriptor → Converted Ip → Client → Errno × Client
  unfolding client_tcp_init
  tcp_init sock conversion c =
      let (code, s) =
        client_tcp_init sock conversion (record { udp_sock = c.udp_sock; tcp_sock = c.tcp_sock }) in
      (code, record c { tcp_sock = s.tcp_sock })

  -- The `while` loop of `send_negotiate` over the conversions to come; `none`: there are too few.
  unfoldable pub retry_init : Descriptor → List (Converted Ip) → Client → Option Client
  unfolding tcp_init
  retry_init sock [] c = if ltb c.try_times max_try_times then none else some c
  retry_init sock (conversion ∷ more) c =
      let (code, c') = tcp_init sock conversion c in
      let rest = retry_init sock more (record c' { try_times = c'.try_times + 1 }) in
      let fine = is_success code in
      if ltb c.try_times max_try_times
      then (if fine then some (record c' { try_times = 0 }) else rest)
      else some c

  -- The set-up of the socket: whether the server answered, and the client.
  unfoldable pub set_up_tcp : Descriptor → List (Converted Ip) → Client → Option (Bool × Client)
  unfolding retry_init
  set_up_tcp sock [] c = none
  set_up_tcp sock (conversion ∷ more) c =
      let (code, c') = tcp_init sock conversion c in
      if is_success code
      then some (true, c')
      else (retry_init sock more c' >>= λ r. some (r.try_times == 0, r))

-- `loop_count--` on an `int`.
abbrev pub decremented : Client → Client
decremented c = record c { loop_count = u32 (c.loop_count + 2 ^ 32 - 1) }

-- What follows what may be undefined.
abbrev pub known {ℓ} : {A : Type ℓ} → Option A → (A → Course) → Course
known none k = undefined
known (some a) k = k a

-- After the write of the request.
unfoldable pub after_request : Endian → Asa → Talk → Sending → Course
unfolding converse
after_request e asa t s =
    let t' = record t { handed = log s.handed t.handed } in
    if is_success s.code then converse e asa unread t' t'.reads else ended s.code t'

-- `send_negotiate` once the socket is set up: the REQUEST_MSG, and the answers.
unfoldable pub send_request : Endian → Asa → Talk → ℕ → Course
unfolding after_request
send_request e asa t size = if t.client.loop_count == 0 then ended error t else elim t.writes [
  | [] ↦ pending
  | w ∷ rest ↦
      known (write_pdu t.client.tcp_sock w.0 w.1 t.buffer size request_msg t.client.session_id)
        (after_request e asa (record t { client = decremented t.client; writes = rest }))
]

abbrev pub and_then : Course → (Errno → Talk → Course) → Course
and_then (ended code t) k = k code t
and_then pending k = pending
and_then undefined k = undefined

-- `store_last_options` of the buffer, if the code is SUCCESS.
unfoldable pub store_on_success : ℕ → Errno → Talk → Course
unfolding remember_first
store_on_success size code u =
    if is_success code then known (remember_first size u.buffer u) (ended success) else ended code u

-- The end of `synchronize`: what the buffer holds goes to `do_configuration`.
unfoldable pub conclude : Endian → List ℕ → Errno → Talk → Course
conclude e chunk code u = known (objective_parse_bits e chunk u.buffer) (λ o.
    ended code
      (configure (get_value o.base) (with_client u (record u.client { cur_states = off }))))

module _ {Ip : Type 0} where
  -- `send_negotiate`: `sock` is the new socket, `conversions` what `inet_pton` answers.
  unfoldable pub send_negotiate :
      Endian → Asa → Descriptor → List (Converted Ip) → Talk → ℕ → MsgType → Course
  unfolding set_up_tcp send_request
  send_negotiate e asa sock conversions t size request_msg =
      elim (set_up_tcp sock conversions t.client) [
        | none ↦ pending
        | some (answered, c) ↦
            if answered
            then send_request e asa (with_client t (record c { recv_timeout = 10 })) size
            else ended error (with_client t c)
      ]
  send_negotiate e asa sock conversions t size _ = ended client_send_unexcepted_msg_type_err t

  -- `send_tcp`. What it stores is the buffer that the last answer was read into.
  unfoldable pub send_tcp :
      Endian → Asa → Descriptor → List (Converted Ip) → Talk → ℕ → MsgType → Course
  unfolding send_negotiate store_on_success
  send_tcp e asa sock conversions t size type = elim t.client.cur_states [
    | off ↦ and_then (send_negotiate e asa sock conversions t size type) (store_on_success size)
    | _ ↦ ended client_unexcepted_state_err t
  ]

  -- `nego_thread`. The code of `send_tcp` is dropped.
  unfoldable pub nego_thread : Endian → Asa → Descriptor → List (Converted Ip) → Talk → Course
  unfolding send_tcp
  nego_thread e asa sock conversions t =
      and_then
        (send_tcp e asa sock conversions (record t { buffer = t.client.buffer_nego_obj })
          max_string_length request_msg)
        (λ code u.
          ended code
            (with_client u (record u.client { cur_states = off; buffer_nego_obj = u.buffer })))

  -- `synchronize` with its request in the buffer: what the buffer holds after `send_tcp` goes to
  -- `do_configuration`, whatever the code is.
  unfoldable pub synchronize_with :
      Endian → Asa → List ℕ → Descriptor → List (Converted Ip) → Talk → Course
  unfolding send_tcp conclude
  synchronize_with e asa chunk sock conversions t =
      and_then (send_tcp e asa sock conversions t max_string_length request_msg) (conclude e chunk)

-- The request of the string `objective`: its bits, and how many are copied.
unfoldable pub request_bits : Endian → OptionType → List ℕ → ℕ → Option (List ℕ × ℕ)
request_bits e type objective loop_count = do
  n ← strlen objective
  bits ← objective_to_bits e (record {
    base = record { type = type; len = u16 n; value = some objective };
    loop_count = loop_count;
    flag = 0;
  })
  some (bits, u16 n + objective_len_except_value)

-- The members that `negotiate` and `synchronize` set first.
abbrev pub begun : ℕ → ℕ → Client → Client
begun random loop_count c = record c {
  session_id = random % (max_session_id + 1);
  loop_count = loop_count;
  flag = 0;
}

module _ {Ip : Type 0} (inet_ntop : Ip → List ℕ) where
  -- Whether the address of the negotiation is the broadcast address, whose text is converted to
  -- `broadcast`.
  abbrev pub is_broadcast : SockAddr Ip → Ip → Option Bool
  is_broadcast nego_addr broadcast =
      sock_addr_equal inet_ntop nego_addr (record { sin6_addr = broadcast; sin6_port = 4444 })

  -- `negotiate`, up to the thread, which it does not wait for; `created`: `pthread_create` answered 0.
  unfoldable pub negotiate :
      Endian → SockAddr Ip → Ip → List ℕ → ℕ → Bool → Client → Option (Errno × Client)
  unfolding request_bits
  negotiate e nego_addr broadcast objective random created c = do
    refused ← is_broadcast nego_addr broadcast
    if refused then some (error, c) else (do
      block ← (request_bits e negotiation objective 5 >>= λ r. memcpy c.buffer_nego_obj r.0 r.1)
      some (
        if created then success else error,
        record (begun random 5 c) { buffer_nego_obj = block },
      ))

  -- `synchronize`; `local` is the block of its buffer and `chunk` that of the last `parse_bits`.
  unfoldable pub synchronize :
      Endian
      → Asa
      → SockAddr Ip
      → Ip
      → List ℕ
      → ℕ
      → List ℕ
      → List ℕ
      → Descriptor
      → List (Converted Ip)
      → Talk
      → Course
  unfolding request_bits synchronize_with
  synchronize e asa nego_addr broadcast objective random local chunk sock conversions t =
      known (is_broadcast nego_addr broadcast) (λ refused.
        if refused
        then ended error t
        else known (request_bits e synchronization objective 1 >>= λ r. memcpy local r.0 r.1)
            (λ block. synchronize_with e asa chunk sock conversions (record t {
              client = record (begun random 1 t.client) { cur_states = off };
              buffer = block;
            })))
