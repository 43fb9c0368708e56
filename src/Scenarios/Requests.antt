-- ===== src/Scenarios/Requests.antt =====
-- A client whose first request is answered, or not.
use ietf_anima_signaling_pro.Scenarios.Negotiations.{bargainer, incoming, offered, haggler, busy}
use ietf_anima_signaling_pro.Base.{
  ◌+◌, strcmp_eq, memcpy, ℕ, ◌≡◌, ◌≤◌, refl, List, [], ◌∷◌, zeros, strncpy, little, none, some,
  Bool, true, false, arith, ◌⊎◌,
}
use ietf_anima_signaling_pro.Errno.{success, error, ok}
use ietf_anima_signaling_pro.Msg.{type_of_code, decode, Msg, nego_end_msg}
use ietf_anima_signaling_pro.Pdu.{read_pdu, msg_bytes, wrote, sizeof_msg, got}
use ietf_anima_signaling_pro.Msg.Codec.{encoded}
use ietf_anima_signaling_pro.Pdu.Transfer.{read_pdu-whole, encoded-IsMsg}
use ietf_anima_signaling_pro.Negotiation.Course.{ended}
use ietf_anima_signaling_pro.Negotiation.Course.Start.{
  synchronize, set_up_tcp, tcp_init, retry_init, is_broadcast,
}
use ietf_anima_signaling_pro.Negotiation.Course.Start.Tries.{set_up_tcp-Settles}
use ietf_anima_signaling_pro.Negotiation.Synchronized.{synchronizing, synchronize-unanswered}
use ietf_anima_signaling_pro.Negotiation.Answered.{synchronize-reply}
use ietf_anima_signaling_pro.Pdu.Sockets.{
  SockAddr, Converted, converted, invalid_address, conversion_failed, sock_addr_equal,
  client_tcp_init,
}
use ietf_anima_signaling_pro.GdnpOption.{
  discovery, ObjectiveOption, accept, synchronization, parse_bits, objective_parse_bits, copy_value,
  option_type_of,
}
use ietf_anima_signaling_pro.GdnpOption.Uniform.{without_value}
use ietf_anima_signaling_pro.GdnpOption.Roundtrip.{with_text}
use ietf_anima_signaling_pro.Session.{session_end}
use ietf_anima_signaling_pro.Session.Run.{default_asa, reply}
use ietf_anima_signaling_pro.Client.{Client, off}
use ietf_anima_signaling_pro.Negotiation.{Incoming, Talk}

-- An Accept comes as the answer to the request; before it, a discovery had stored its option.
abbrev accept_message : Msg
accept_message = encoded 6 nego_end_msg 66 (1 ∷ 0 ∷ 0 ∷ 0 ∷ []) 4

accept_arrives :
    read_pdu little (some 7) (got (msg_bytes little [] accept_message)) []
    ≡ ok
        (record { type = nego_end_msg; session_id = 66; content = 1 ∷ zeros 999; data_size = 1001 })
unfolding decode memcpy zeros type_of_code
accept_arrives = read_pdu-whole little 7 accept_message [] [] (
    encoded-IsMsg 6 nego_end_msg 66 (1 ∷ 0 ∷ 0 ∷ 0 ∷ []) 4 (omega arith) (omega arith) (omega arith)
      (omega arith))

abbrev accept_read : Incoming
accept_read = record incoming { reading = got (msg_bytes little [] accept_message) }

abbrev asking : Talk
asking = record offered { reads = accept_read ∷ [] }

accept_parsed :
    (parse_bits little accept_read.option_chunk (1 ∷ zeros 999)
      ≡ some (record { type = accept; len = 0; value = none }))
    × (objective_parse_bits little accept_read.objective_chunk (1 ∷ zeros 999)
        ≡ some (without_value accept))
    × (objective_parse_bits little accept_read.last_chunk bargainer.last_top_options
        ≡ some (without_value discovery))
unfolding parse_bits objective_parse_bits copy_value option_type_of strncpy zeros
accept_parsed = (refl, refl, refl)

-- Addresses are numbers here, and their texts are decimal digits.
abbrev pub text_of : ℕ → List ℕ
text_of n = (48 + n) ∷ 0 ∷ []

abbrev pub nego_address : SockAddr ℕ
nego_address = record { sin6_addr = 2; sin6_port = 0 }

pub not_broadcast : is_broadcast text_of nego_address 1 ≡ some false
unfolding sock_addr_equal strcmp_eq
not_broadcast = refl

abbrev refusals : List (Converted ℕ)
refusals =
    invalid_address ∷ conversion_failed ∷ invalid_address ∷ invalid_address ∷ invalid_address
    ∷ invalid_address ∷ []

unheard :
    set_up_tcp (some 7) refusals (synchronizing 66 bargainer)
    ≡ some (false, record bargainer { cur_states = off; try_times = 5; loop_count = 1 })
unfolding set_up_tcp retry_init tcp_init client_tcp_init
unheard = refl

synchronize-unanswered_example :
    (v : Talk) × (synchronize text_of little default_asa nego_address 1
        (57 ∷ 0 ∷ [])
        66
        (zeros 1000)
        (8 ∷ 0 ∷ [])
        (some 7)
        refusals
        offered
      ≡ ended error v)
    × (v.handed ≡ [])
    × (v.configured ≡ (57 ∷ 0 ∷ []) ∷ [])
unfolding zeros
synchronize-unanswered_example =
    synchronize-unanswered text_of little default_asa nego_address 1 (57 ∷ []) [] (zeros 1000)
      (8 ∷ 0 ∷ []) 66 not_broadcast (omega arith) (omega arith) (omega arith) refl (some 7) refusals
      offered _ unheard

set_up_tcp-Settles_example :
    (answered : Bool) × (c : Client) × (set_up_tcp (some 7) refusals bargainer ≡ some (answered, c))
    × ((answered ≡ true) ⊎ (5 ≤ c.try_times))
set_up_tcp-Settles_example = set_up_tcp-Settles (some 7) refusals bargainer (omega arith)

-- The session that is asked to synchronize the text "9"; its agent has the text "8".
abbrev to_synchronize : ObjectiveOption
to_synchronize = with_text synchronization 1 0 (57 ∷ []) (0 ∷ [])

synchronize-reply_example :
    (m request : Msg) × (v : Talk) × (reply little haggler 6 (wrote sizeof_msg) busy to_synchronize
      ≡ some (record {
        session = record busy { cur_state = session_end };
        code = success;
        handed = some m;
        end_thread = false;
      }))
    × (synchronize text_of little default_asa nego_address 1
          (57 ∷ 0 ∷ [])
          66
          (zeros 1000)
          (8 ∷ 0 ∷ [])
          (some 7)
          (converted 2 ∷ [])
          (record offered {
            writes = (5, wrote sizeof_msg) ∷ [];
            reads = record incoming { reading = got (msg_bytes little [] m) } ∷ [];
          })
        ≡ ended success v)
    × (v.configured ≡ (56 ∷ 0 ∷ []) ∷ [])
    × (v.handed ≡ request ∷ [])
unfolding zeros
synchronize-reply_example =
    synchronize-reply text_of little default_asa nego_address 1 (57 ∷ []) [] (zeros 1000)
      (8 ∷ 0 ∷ []) 66 offered 7 5 2 [] [] incoming [] haggler busy 6 9 to_synchronize (56 ∷ []) []
      [] not_broadcast (omega arith) (omega arith) (omega arith) refl (omega arith) refl refl refl
      (omega arith) refl (omega arith) (omega arith) (omega arith)
