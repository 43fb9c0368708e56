-- ===== src/Scenarios/Negotiations.antt =====
-- A client that negotiates and synchronizes.
use ietf_anima_signaling_pro.Base.{
  if_room, memcpy, ℕ, ◌≡◌, refl, List, [], ◌∷◌, ◌++◌, zeros, strncpy, little, big, none, some,
  false, arith,
}
use ietf_anima_signaling_pro.Errno.{success, ok}
use ietf_anima_signaling_pro.Msg.{type_of_code, decode, Msg, nego_msg, nego_end_msg, wait_msg}
use ietf_anima_signaling_pro.Pdu.{read_pdu, msg_bytes, wrote, sizeof_msg, got}
use ietf_anima_signaling_pro.Msg.Codec.{encoded}
use ietf_anima_signaling_pro.Pdu.Transfer.{read_pdu-whole, encoded-IsMsg}
use ietf_anima_signaling_pro.Negotiation.Course.Order.{Outgoing, converse-Outgoing}
use ietf_anima_signaling_pro.Negotiation.Course.Ending.{converse-ends}
use ietf_anima_signaling_pro.Pdu.Carried.{Carries}
use ietf_anima_signaling_pro.GdnpOption.{
  GdnpOption, ObjectiveOption, accept, negotiation, parse_bits, objective_parse_bits, get_value,
  copy_value, option_type_of,
}
use ietf_anima_signaling_pro.GdnpOption.Roundtrip.{with_text}
use ietf_anima_signaling_pro.Session.{Session, processing}
use ietf_anima_signaling_pro.Session.Run.{Asa, default_asa}
use ietf_anima_signaling_pro.Session.Threads.{testing, send_wait}
use ietf_anima_signaling_pro.Client.{Client, off, wait}
use ietf_anima_signaling_pro.Negotiation.{
  Incoming, Talk, unread, after_wait_msg, ends, reads_on, do_negotiate,
}
use ietf_anima_signaling_pro.Negotiation.Offer.{answering, do_negotiate-offer}
use ietf_anima_signaling_pro.Negotiation.Verdict.{do_negotiate-verdict}
use ietf_anima_signaling_pro.Negotiation.Waiting.{send_wait-do_negotiate}

abbrev pub bargainer : Client
bargainer = record {
  udp_sock = some 3;
  session_id = 66;
  cur_states = off;
  try_times = 0;
  last_top_options = 5 ∷ zeros 999;
  received = none;
  nego_addr = [];
  tcp_sock = some 7;
  loop_count = 5;
  flag = 0;
  buffer_nego_obj = zeros 1000;
  recv_timeout = 10;
}

abbrev pub incoming : Incoming
incoming = record {
  reading = got [];
  stale = [];
  option_chunk = 8 ∷ 0 ∷ 0 ∷ 0 ∷ [];
  objective_chunk = 8 ∷ 0 ∷ 0 ∷ 0 ∷ [];
  last_chunk = 8 ∷ 0 ∷ 0 ∷ 0 ∷ [];
  send_buffer = zeros 1000;
}

-- The buffer holds an offer of the text "9", with the loop count 4.
abbrev pub offered : Talk
offered = record {
  client = bargainer;
  buffer = 6 ∷ 0 ∷ 1 ∷ 0 ∷ 0 ∷ 4 ∷ 57 ∷ zeros 993;
  writes = (5, wrote sizeof_msg) ∷ [];
  reads = [];
  handed = [];
  configured = [];
}

abbrev offered_option : GdnpOption
offered_option = record { type = negotiation; len = 1; value = some (0 ∷ 0 ∷ 0 ∷ 0 ∷ []) }

abbrev pub offered_objective : ObjectiveOption
offered_objective = with_text negotiation 4 0 (57 ∷ []) (0 ∷ 0 ∷ 0 ∷ [])

option_parsed : parse_bits little incoming.option_chunk offered.buffer ≡ some offered_option
unfolding parse_bits copy_value option_type_of strncpy
option_parsed = refl

objective_parsed :
    objective_parse_bits little incoming.objective_chunk offered.buffer ≡ some offered_objective
unfolding objective_parse_bits copy_value option_type_of strncpy
objective_parsed = refl

-- An agent that takes nothing and wants the text "8".
abbrev pub haggler : Asa
haggler = record { asa_geq_fn = λ a b. false; asa_negotiate_result = λ v. 56 ∷ 0 ∷ [] }

do_negotiate-offer_example :
    (m : Msg) × (content : List ℕ) × (do_negotiate little haggler incoming offered nego_msg
      ≡ reads_on unread (record offered {
        client = record (answering offered_objective bargainer) { last_top_options = content };
        writes = [];
        handed = m ∷ [];
      }))
    × Carries little m nego_msg 66 content
    × (objective_parse_bits little (1 ∷ 0 ∷ []) content
        ≡ if_room (56 ∷ []) (1 ∷ 0 ∷ []) (with_text negotiation 3 0 (56 ∷ []) (0 ∷ [])))
unfolding zeros
do_negotiate-offer_example =
    do_negotiate-offer little haggler incoming offered 7 5 [] offered_option offered_objective refl
      (omega arith) refl (omega arith) option_parsed objective_parsed (56 ∷ []) [] (1 ∷ 0 ∷ []) refl
      refl (omega arith) (omega arith) (omega arith) (omega arith) (λ h. absurd (omega (arith, h)))

do_negotiate-verdict_example :
    (m : Msg) × (content : List ℕ) × (do_negotiate little default_asa incoming offered nego_msg
      ≡ ends success (record offered {
        client = answering offered_objective bargainer;
        writes = [];
        handed = m ∷ [];
        configured = (57 ∷ 0 ∷ 0 ∷ 0 ∷ []) ∷ [];
      }))
    × Carries little m nego_end_msg 66 content
    × ((chunk : List ℕ)
        → parse_bits little chunk content ≡ some (record { type = accept; len = 0; value = none }))
unfolding get_value
do_negotiate-verdict_example =
    do_negotiate-verdict little default_asa incoming offered 7 5 [] offered_option offered_objective
      refl (omega arith) refl (omega arith) option_parsed objective_parsed refl

abbrev pub busy : Session
busy = record {
  tcp_sock = some 9;
  session_id = 66;
  queue = [];
  cur_state = processing;
  idle_check = 0;
}

-- On a machine that stores the high byte first, the limit is gone.
send_wait-do_negotiate_example :
    (m : Msg) × (content : List ℕ) × (send_wait big 5 (wrote sizeof_msg) busy
      ≡ some (record { session = busy; thread = testing 0; handed = some m }))
    × Carries big m wait_msg 66 content
    × (c : Client) × (do_negotiate big default_asa incoming
          (record offered { buffer = content })
          wait_msg
        ≡ reads_on after_wait_msg (record offered { client = c; buffer = content }))
    × (c.recv_timeout ≡ 0)
    × (c.cur_states ≡ wait)
send_wait-do_negotiate_example =
    send_wait-do_negotiate big 5 busy 9 default_asa incoming offered (omega arith) refl refl
      (omega arith) (omega arith) (omega arith)

-- The offer as it comes over the connection.
abbrev offer_message : Msg
offer_message = encoded 6 nego_msg 66 (6 ∷ 0 ∷ 1 ∷ 0 ∷ 0 ∷ 4 ∷ 57 ∷ []) 7

offer_arrives :
    read_pdu little (some 7) (got (msg_bytes little [] offer_message)) []
    ≡ ok (record { type = nego_msg; session_id = 66; content = offered.buffer; data_size = 1001 })
unfolding decode memcpy zeros type_of_code
offer_arrives = read_pdu-whole little 7 offer_message [] [] (
    encoded-IsMsg 6 nego_msg 66 (6 ∷ 0 ∷ 1 ∷ 0 ∷ 0 ∷ 4 ∷ 57 ∷ []) 7 (omega arith) (omega arith)
      (omega arith) (omega arith))

abbrev offer_read : Incoming
offer_read = record incoming { reading = got (msg_bytes little [] offer_message) }

-- The client's agreement, and the course that it ends.
agreed :
    (m : Msg) × (do_negotiate little default_asa offer_read offered nego_msg
      ≡ ends success (record offered {
        client = answering offered_objective bargainer;
        writes = [];
        handed = m ∷ [];
        configured = (57 ∷ 0 ∷ 0 ∷ 0 ∷ []) ∷ [];
      }))
unfolding get_value
agreed =
    let (m, content, done, _, _) =
      do_negotiate-verdict little default_asa offer_read offered 7 5 [] offered_option
        offered_objective refl (omega arith) refl (omega arith) option_parsed objective_parsed
        refl in
    (m, done)

converse-Outgoing_example : (new : List Msg) × (agreed.0 ∷ [] ≡ new ++ []) × Outgoing new
converse-Outgoing_example =
    converse-Outgoing little default_asa (offer_read ∷ []) unread offered
      (record offered {
        client = answering offered_objective bargainer;
        writes = [];
        handed = agreed.0 ∷ [];
        configured = (57 ∷ 0 ∷ 0 ∷ 0 ∷ []) ∷ [];
      })
      success
      (converse-ends little default_asa offer_read [] offered _ offered.buffer 1001 nego_msg
        offer_arrives agreed.1)
