-- ===== src/Scenarios/Masters.antt =====
-- The server: messages for its sessions, its table of sockets, and rounds of its loop.
use ietf_anima_signaling_pro.Base.{
  ◌==◌, ap, ℕ, ◌≡◌, refl, [], ◌∷◌, zeros, memcpy, little, none, some, Bool, false, arith, inl,
}
use ietf_anima_signaling_pro.Errno.{◌>>=◌, ok, success}
use ietf_anima_signaling_pro.Msg.{Msg, Decoded, nego_msg, discovery_msg, type_of_code, decode}
use ietf_anima_signaling_pro.Msg.Codec.{encoded}
use ietf_anima_signaling_pro.Pdu.{wrote, sizeof_msg, got, read_pdu, recv_pdu, msg_bytes}
use ietf_anima_signaling_pro.Pdu.Transfer.{read_pdu-whole, encoded-IsMsg}
use ietf_anima_signaling_pro.Content.{Content}
use ietf_anima_signaling_pro.Session.{Session, idle, processing, queue_push}
use ietf_anima_signaling_pro.Server.Sessions.{hand_over, is_request, SessionMap, queued, distribute}
use ietf_anima_signaling_pro.Server.Sessions.Map.{lookup}
use ietf_anima_signaling_pro.Server.Sessions.Delivery.{
  Delivers, hand_over-Delivers, distribute_decoded,
}
use ietf_anima_signaling_pro.Server.Turn.{
  fd_put, serve_listen, watchable, serve, interface_at, Master, World, ready, turn, client_accepted,
  serve_udp, replied,
}
use ietf_anima_signaling_pro.Server.Turn.Reply.{Answers, serve_udp-discovery}

-- Two sessions, of the ids 5 and 66.
abbrev session_5 : Session
session_5 = record {
  tcp_sock = some 7;
  session_id = 5;
  queue = [];
  cur_state = idle;
  idle_check = 0;
}

abbrev session_66 : Session
session_66 = record {
  tcp_sock = some 8;
  session_id = 66;
  queue = [];
  cur_state = processing;
  idle_check = 0;
}

abbrev two_sessions : SessionMap
two_sessions = (5, session_5) ∷ (66, session_66) ∷ []

-- What a NEGO_MSG of two bytes brings, in an array of 1000.
abbrev nego_content : Content
nego_content = record { type = nego_msg; body = 1 ∷ 2 ∷ zeros 998 }

hand_over-Delivers_example :
    ((hand_over (some 8) 66 nego_msg nego_content two_sessions).1 ≡ queued)
    × Delivers 66 two_sessions
        (hand_over (some 8) 66 nego_msg nego_content two_sessions).0
        (some (queue_push session_66 nego_content))
unfolding lookup is_request
hand_over-Delivers_example =
    hand_over-Delivers (some 8) two_sessions 66 nego_content (omega arith, (omega arith, tt))

-- A message from the wire.
abbrev nego_on_wire : Msg
nego_on_wire = encoded 9 nego_msg 66 (1 ∷ 2 ∷ []) 2

abbrev nego_decoded : Decoded
nego_decoded = record {
  type = nego_msg;
  session_id = 66;
  content = 1 ∷ 2 ∷ zeros 998;
  data_size = 1001;
}

nego_arrives :
    read_pdu little (some 8) (got (msg_bytes little (0 ∷ 0 ∷ 0 ∷ []) nego_on_wire)) []
    ≡ ok nego_decoded
unfolding decode memcpy zeros type_of_code
nego_arrives = read_pdu-whole little 8 nego_on_wire (0 ∷ 0 ∷ 0 ∷ []) [] (
    encoded-IsMsg 9 nego_msg 66 (1 ∷ 2 ∷ []) 2 (omega arith) (omega arith) (omega arith)
      (omega arith))

distribute_decoded_example :
    distribute (zeros 3) (some 8) two_sessions 66 nego_decoded.content 1001 nego_msg ≡ none
unfolding zeros
distribute_decoded_example =
    distribute_decoded little (some 8) (got (msg_bytes little (0 ∷ 0 ∷ 0 ∷ []) nego_on_wire)) []
      nego_decoded (zeros 3) two_sessions nego_arrives (inl (omega arith))

-- Two clients are connected; the second was accepted last.
abbrev pub quiet : Master
quiet = record {
  udp_sock = some 3;
  listen_sock = some 4;
  tcp_sock = some 6;
  table = record { fds = some 5 ∷ some 6 ∷ some 0 ∷ some 0 ∷ some 0 ∷ []; accepted = 2 };
  sessions = two_sessions;
  local_interfaces = (58 ∷ 58 ∷ 49 ∷ []) ∷ (102 ∷ 101 ∷ 58 ∷ 58 ∷ []) ∷ [];
  locked = false;
}

-- A DISCOVERY_MSG of session 77 from the address 12.
abbrev discovery_on_wire : Msg
discovery_on_wire = encoded 9 discovery_msg 77 [] 0

abbrev pub discovered : Decoded
discovered = record {
  type = discovery_msg;
  session_id = 77;
  content = zeros 1000;
  data_size = 1001;
}

abbrev pub outside : World ℕ
outside = record {
  random = 5;
  written = wrote sizeof_msg;
  reading = got (msg_bytes little (0 ∷ 0 ∷ 0 ∷ []) discovery_on_wire);
  stale = [];
  from = 12;
  accepting = some 9;
  stack = zeros 3;
}

abbrev pub only : ℕ → ℕ → Bool
only fd k = fd == k

-- The third client is accepted.
abbrev pub three_clients : Master
three_clients = record quiet {
  tcp_sock = some 9;
  table = record { fds = some 5 ∷ some 6 ∷ some 9 ∷ some 0 ∷ some 0 ∷ []; accepted = 3 };
}

pub third_accepted :
    turn little outside (ready (only 4)) quiet ≡ some (three_clients, client_accepted)
unfolding turn serve serve_listen watchable fd_put
third_accepted = refl

pub discovery_arrives :
    recv_pdu {Address = ℕ} little (some 3) outside.reading 12 [] ≡ ok (discovered, 12)
unfolding recv_pdu read_pdu decode memcpy zeros type_of_code
discovery_arrives =
    ap (λ o. o >>= λ d. ok (d, 12))
      (read_pdu-whole little 3 discovery_on_wire (0 ∷ 0 ∷ 0 ∷ []) [] (
        encoded-IsMsg 9 discovery_msg 77 [] 0 (omega arith) (omega arith) (omega arith)
          (omega arith)))

serve_udp-discovery_example :
    (answer : Msg) × (serve_udp little outside quiet
      ≡ some (quiet, replied (record { code = success; handed = some answer }, 12)))
    × ((from : ℕ) → Answers little 77 (102 ∷ 101 ∷ 58 ∷ 58 ∷ []) answer from)
unfolding interface_at
serve_udp-discovery_example =
    serve_udp-discovery little outside quiet 3 discovered 12 (102 ∷ 101 ∷ 58 ∷ 58 ∷ []) refl
      discovery_arrives refl (omega arith) refl
      (omega arith, (omega arith, (omega arith, (omega arith, tt)))) (omega arith) (omega arith)
      (omega arith) refl
