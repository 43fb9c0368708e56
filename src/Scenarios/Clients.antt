-- ===== src/Scenarios/Clients.antt =====
-- A client that discovers a server.
use ietf_anima_signaling_pro.Base.{
  true, Bool, if_room, ap, ℕ, ◌≡◌, refl, List, [], ◌∷◌, zeros, drop, memcpy, strlen, strncpy,
  little, none, some, arith,
}
use ietf_anima_signaling_pro.Errno.{◌>>=◌, ok, success, client_recv_nothing_err}
use ietf_anima_signaling_pro.Msg.{Msg, response_msg, discovery_msg, decode, type_of_code}
use ietf_anima_signaling_pro.Msg.Codec.{encoded}
use ietf_anima_signaling_pro.Pdu.{got, msg_bytes, recv_pdu, read_pdu}
use ietf_anima_signaling_pro.Pdu.Transfer.{read_pdu-whole, encoded-IsMsg}
use ietf_anima_signaling_pro.GdnpOption.{locator, parse_bits, copy_value, option_type_of}
use ietf_anima_signaling_pro.Client.{
  Client, off, wait_response, informed, ended, timed_out, select_failed, datagram, done,
}
use ietf_anima_signaling_pro.Client.Receive.{recv}
use ietf_anima_signaling_pro.Client.Retry.{IsAsking, whole, recv-nothing}
use ietf_anima_signaling_pro.Client.Response.{recv-response}
use ietf_anima_signaling_pro.Client.Settled.{IsSettled, recv-IsSettled}
use ietf_anima_signaling_pro.Client.Discovery.Answered.{response}
use ietf_anima_signaling_pro.Server.Turn.Reply.{Answers}

abbrev fresh : Client
fresh = record {
  udp_sock = some 3;
  session_id = 77;
  cur_states = off;
  try_times = 0;
  last_top_options = zeros 1000;
  received = none;
  nego_addr = [];
  tcp_sock = none;
  loop_count = 5;
  flag = 0;
  buffer_nego_obj = zeros 1000;
  recv_timeout = 0;
}

-- `inet_pton` that converts every text.
abbrev pub all_addresses : List ℕ → Bool
all_addresses text = true

-- It has asked, and has tried three times since.
abbrev asker : Client
asker = record fresh { cur_states = wait_response; try_times = 3; last_top_options = 5 ∷ 0 ∷ [] }

asker_asks : IsAsking 3 1 asker
unfolding strlen
asker_asks = record {
  opened = refl;
  asking = refl;
  in_range = omega arith;
  text = refl;
  short = omega arith;
  present = omega arith;
}

abbrev request_of : ℕ → Msg
request_of r = encoded r discovery_msg 77 (5 ∷ 0 ∷ []) 1

-- Three more silences, then a failure of `select` that is not looked at any more.
recv-nothing_example :
    recv little [] asker (record {
      writes = whole (8 ∷ 9 ∷ []);
      arrivals = timed_out ∷ timed_out ∷ timed_out ∷ select_failed ∷ [];
      handed = [];
    })
    ≡ done client_recv_nothing_err
        (record asker { cur_states = ended; try_times = 0 })
        (record {
          writes = [];
          arrivals = select_failed ∷ [];
          handed = request_of 9 ∷ request_of 8 ∷ [];
        })
recv-nothing_example =
    recv-nothing little [] 3 1 (8 ∷ 9 ∷ []) asker [] (select_failed ∷ []) [] asker_asks refl

-- A RESPONSE_MSG with the locator option of the text "::1".
abbrev pub answer : Msg
answer = encoded 6 response_msg 77 (4 ∷ 0 ∷ 3 ∷ 0 ∷ 58 ∷ 58 ∷ 49 ∷ []) 7

abbrev pub answer_content : List ℕ
answer_content = 4 ∷ 0 ∷ 3 ∷ 0 ∷ 58 ∷ 58 ∷ 49 ∷ zeros 993

pub answer_arrives :
    (fd : ℕ) (pad stale : List ℕ)
    → recv_pdu {Address = Unit {0}} little (some fd) (got (msg_bytes little pad answer)) tt stale
      ≡ ok (response 77 answer_content, tt)
unfolding recv_pdu read_pdu decode memcpy zeros type_of_code
answer_arrives fd pad stale =
    ap (λ o. o >>= λ d. ok (d, tt))
      (read_pdu-whole little fd answer pad stale (
        encoded-IsMsg 6 response_msg 77 (4 ∷ 0 ∷ 3 ∷ 0 ∷ 58 ∷ 58 ∷ 49 ∷ []) 7 (omega arith)
          (omega arith) (omega arith) (omega arith)))

response_received :
    recv little [] asker (record {
      writes = whole (8 ∷ []);
      arrivals = timed_out ∷ datagram (got (msg_bytes little (0 ∷ 0 ∷ 0 ∷ []) answer)) ∷ [];
      handed = [];
    })
    ≡ done success
        (record asker {
          cur_states = informed;
          try_times = 0;
          received = some (response 77 answer_content);
        })
        (record { writes = []; arrivals = []; handed = request_of 8 ∷ [] })
response_received =
    recv-response little [] 3 1 (8 ∷ []) asker [] (got (msg_bytes little (0 ∷ 0 ∷ 0 ∷ []) answer))
      (response 77 answer_content) [] [] asker_asks (omega arith)
      (answer_arrives 3 (0 ∷ 0 ∷ 0 ∷ []) []) refl refl

pub answer_parses :
    (chunk : List ℕ)
    → parse_bits little chunk answer_content
      ≡ if_room
          (58 ∷ 58 ∷ 49 ∷ [])
          chunk
          (record { type = locator; len = 3; value = some (58 ∷ 58 ∷ 49 ∷ drop 3 chunk) })
unfolding parse_bits copy_value option_type_of strncpy
answer_parses [] = ground arith
answer_parses (a ∷ []) = ground arith
answer_parses (a ∷ b ∷ []) = ground arith
answer_parses (a ∷ b ∷ c ∷ rest) = ground arith

abbrev pub answer_answers : Answers little 77 (58 ∷ 58 ∷ 49 ∷ []) answer tt
answer_answers = record {
  content = answer_content;
  arrives = answer_arrives;
  parses = answer_parses;
}

abbrev informed_asker : Client
informed_asker = record asker {
  cur_states = informed;
  try_times = 0;
  received = some (response 77 answer_content);
}

recv-IsSettled_example : IsSettled success informed_asker × (informed_asker.try_times ≡ 0)
recv-IsSettled_example =
    recv-IsSettled little [] asker informed_asker
      (record {
        writes = whole (8 ∷ []);
        arrivals = timed_out ∷ datagram (got (msg_bytes little (0 ∷ 0 ∷ 0 ∷ []) answer)) ∷ [];
        handed = [];
      })
      (record { writes = []; arrivals = []; handed = request_of 8 ∷ [] }) success refl
      response_received
