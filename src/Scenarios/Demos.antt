-- ===== src/Scenarios/Demos.antt =====
-- The programs of the demonstration, run together.
use ietf_anima_signaling_pro.Base.{
  none, ℕ, ◌≡◌, refl, little, List, [], ◌∷◌, ◌++◌, zeros, strncpy, memcpy, strlen, strcmp_eq,
  strcpy, some, true, false, arith,
}
use ietf_anima_signaling_pro.Errno.{success}
use ietf_anima_signaling_pro.Msg.{Msg, request_msg, nego_end_msg}
use ietf_anima_signaling_pro.Pdu.{wrote, sizeof_msg, got, msg_bytes}
use ietf_anima_signaling_pro.Pdu.Carried.{Carries}
use ietf_anima_signaling_pro.Pdu.Sockets.{converted, sock_addr_equal}
use ietf_anima_signaling_pro.GdnpOption.{
  ObjectiveOption, negotiation, discovery, get_value, objective_to_bits, value_field,
  option_type_code,
}
use ietf_anima_signaling_pro.GdnpOption.Roundtrip.{with_text}
use ietf_anima_signaling_pro.GdnpOption.Uniform.{without_value}
use ietf_anima_signaling_pro.Content.{Content, content_eq, assign}
use ietf_anima_signaling_pro.Session.{Session, session_end, new_session}
use ietf_anima_signaling_pro.Session.Run.{
  default_asa, handling, begin, reply, option_type_is_synchronization, decrement_loop,
}
use ietf_anima_signaling_pro.Session.Run.States.{final}
use ietf_anima_signaling_pro.Client.{new_client, Client, Script, off, timed_out, datagram}
use ietf_anima_signaling_pro.Client.Retry.{whole}
use ietf_anima_signaling_pro.Client.Discovery.{renewed}
use ietf_anima_signaling_pro.Client.Discovery.Asked.{asking_client, objective_parse_bits-repeated}
use ietf_anima_signaling_pro.Client.Discovery.Answered.{response}
use ietf_anima_signaling_pro.Negotiation.{Talk}
use ietf_anima_signaling_pro.Negotiation.Course.{ended}
use ietf_anima_signaling_pro.Negotiation.Course.Start.{negotiate, nego_thread, request_bits}
use ietf_anima_signaling_pro.Negotiation.Accepted.{
  request_content, request_of, request_of-Carries, running, negotiate-accepted,
}
use ietf_anima_signaling_pro.Msg.{Decoded}
use ietf_anima_signaling_pro.GdnpOption.{
  accept, parse_bits, objective_parse_bits, copy_value, option_type_of,
}
use ietf_anima_signaling_pro.Server.Sessions.Map.{lookup}
use ietf_anima_signaling_pro.Server.Turn.{World}
use ietf_anima_signaling_pro.Server.Life.{Reach, Serving}
use ietf_anima_signaling_pro.Server.Life.Invariant.{IsServing, new_master-IsMap}
use ietf_anima_signaling_pro.Server.Life.Cycle.{session_cycle}
use ietf_anima_signaling_pro.Scenarios.Masters.{outside}
use ietf_anima_signaling_pro.Scenarios.Lives.{joined, served}
use ietf_anima_signaling_pro.Demo.{test1}
use ietf_anima_signaling_pro.Scenarios.Clients.{answer, answer_content}
use ietf_anima_signaling_pro.Scenarios.Negotiations.{incoming, offered}
use ietf_anima_signaling_pro.Scenarios.Requests.{text_of, nego_address, not_broadcast}

-- The discovery of session 77 is answered by "::1" after one silence.
abbrev script : Script
script = record {
  writes = whole (1 ∷ 8 ∷ []);
  arrivals = timed_out ∷ datagram (got (msg_bytes little (0 ∷ 0 ∷ 0 ∷ []) answer)) ∷ [];
  handed = [];
}

abbrev found : Client
found = record (asking_client little (renewed (some 3) 77 (new_client (zeros 1000)))) {
  cur_states = off;
  try_times = 0;
  received = some (response 77 answer_content);
  nego_addr = 58 ∷ 58 ∷ 49 ∷ 0 ∷ [];
}

abbrev block : List ℕ
block = 9 ∷ 9 ∷ 9 ∷ 0 ∷ []

-- Then it asks for "test1", in session 66.
abbrev testing : Client
testing = record found {
  session_id = 66;
  buffer_nego_obj = 6 ∷ 0 ∷ 5 ∷ 0 ∷ 0 ∷ 5 ∷ 116 ∷ 101 ∷ 115 ∷ 116 ∷ 49 ∷ zeros 989;
}

begins_testing :
    negotiate text_of little nego_address 1 (test1 ++ 0 ∷ zeros 994) 66 true found
    ≡ some (success, testing)
unfolding new_client negotiate request_bits objective_to_bits value_field option_type_code memcpy
    zeros strlen sock_addr_equal strcmp_eq
begins_testing = refl

-- What the memory of the session's `last_content` holds, before and after.
abbrev garbage : Content
garbage = record { type = request_msg; body = 9 ∷ 9 ∷ 9 ∷ [] }

abbrev kept : Content
kept = record { type = request_msg; body = 6 ∷ 0 ∷ 9 ∷ [] }

differs : content_eq (request_content testing) garbage ≡ some false
unfolding content_eq strcmp_eq
differs = refl

is_copied : assign garbage (request_content testing) ≡ some kept
unfolding assign strcpy
is_copied = refl

abbrev test1_option : ObjectiveOption
test1_option = with_text negotiation 5 0 test1 (0 ∷ [])

accepts_test1 : final default_asa test1_option ≡ true
unfolding option_type_is_synchronization decrement_loop
accepts_test1 = refl

negotiate-accepted_example :
    (s : Session) × (m : Msg) × (v : Talk) × Carries little
      (request_of 5 testing)
      request_msg
      66
      testing.buffer_nego_obj
    × (begin little (zeros 6) [] (new_session (some 9) 66 (request_content testing)) garbage
        ≡ some (handling s test1_option, kept))
    × (reply little default_asa 6 (wrote sizeof_msg) s test1_option
        ≡ some (record {
          session = record s { cur_state = session_end };
          code = success;
          handed = some m;
          end_thread = false;
        }))
    × (nego_thread {Ip = ℕ} little default_asa
          (some 7)
          (converted 1 ∷ [])
          (running little 5 offered [] incoming [] [] m testing)
        ≡ ended success v)
    × (v.handed ≡ request_of 5 testing ∷ [])
    × (v.configured ≡ get_value (without_value discovery).base ∷ [])
unfolding zeros new_client
negotiate-accepted_example =
    negotiate-accepted text_of little default_asa default_asa nego_address 1 1 [] test1 (zeros 994)
      (zeros 6) [] [] [] 66 5 6 7 9 found testing offered [] incoming [] garbage kept
      (without_value discovery) not_broadcast
      (omega arith, (omega arith, (omega arith, (omega arith, (omega arith, tt))))) (omega arith)
      (omega arith) refl (omega arith) refl (omega arith) (omega arith) begins_testing differs
      is_copied accepts_test1 (objective_parse_bits-repeated incoming.last_chunk)

-- The server of the demonstration reads the request of "test1".
abbrev arrival : World ℕ
arrival = record outside { reading = got (msg_bytes little [] (request_of 5 testing)); stale = [] }

abbrev arrived : Decoded
arrived = record {
  type = request_msg;
  session_id = 66;
  content = testing.buffer_nego_obj;
  data_size = 1001;
}

test1_parsed : objective_parse_bits little (zeros 6) arrived.content ≡ some test1_option
unfolding objective_parse_bits copy_value option_type_of strncpy zeros
test1_parsed = refl

test1_string : strlen (get_value test1_option.base) ≡ some 5
unfolding strlen get_value
test1_string = refl

joined-IsServing : IsServing joined
joined-IsServing = record {
  in_table = record { whole = refl; bounded = omega arith };
  in_map = new_master-IsMap;
}

session_cycle_example :
    (m' : Serving) × (msg : Msg) × (content : List ℕ) × Reach ℕ little default_asa
      (served joined)
      m'
    × ((m'.local 66).sent ≡ msg ∷ [])
    × Carries little msg nego_end_msg 66 content
    × ((chunk : List ℕ)
        → parse_bits little chunk content ≡ some (record { type = accept; len = 0; value = none }))
    × ((j : ℕ) → lookup j m'.master.sessions ≡ lookup j [])
    × (m'.master.table.accepted ≡ 0)
    × (m'.master.tcp_sock ≡ some 9)
    × (m'.master.locked ≡ false)
unfolding lookup zeros option_type_is_synchronization
session_cycle_example =
    session_cycle ℕ little default_asa (served joined) arrival arrived joined-IsServing refl refl
      (request_of-Carries little 5 testing (omega arith) (omega arith) refl 9 [] []) refl (zeros 6)
      garbage kept test1_option 5 9 6 differs is_copied test1_parsed test1_string refl (omega arith)
      (omega arith) refl accepts_test1
