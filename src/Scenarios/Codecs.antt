-- ===== src/Scenarios/Codecs.antt =====
-- Messages and options: the codecs on concrete inputs.
use ietf_anima_signaling_pro.Base.{
  if_room, ℕ, ◌+◌, ◌*◌, ◌≤◌, ◌<◌, ◌≡◌, ◌↔◌, refl, List, [], ◌∷◌, ◌++◌, zeros, length-zeros, little,
  big, none, some, arith, length, memcpy,
}
use ietf_anima_signaling_pro.Errno.{
  ◌>>=◌, ok, err, success, options_too_long_err, session_id_too_long_err,
}
use ietf_anima_signaling_pro.Msg.{Msg, request_msg, encode, decode, msg_type_code}
use ietf_anima_signaling_pro.Msg.Codec.{
  encoded, decode-encode, encode_branches, decode-header, decode-encoded,
}
use ietf_anima_signaling_pro.Pdu.{Sending, got, wrote, sizeof_msg, write_pdu, read_pdu, msg_bytes}
use ietf_anima_signaling_pro.Pdu.Transfer.{encoded-IsMsg, read_pdu-write_pdu, read_pdu-closed}
use ietf_anima_signaling_pro.GdnpOption.{
  locator, negotiation, to_bits, parse_bits, objective_to_bits, objective_parse_bits, value_field,
  option_type_code,
}
use ietf_anima_signaling_pro.GdnpOption.Roundtrip.{
  with_text, parse_bits-to_bits, objective_parse_bits-to_bits,
}
use ietf_anima_signaling_pro.GdnpOption.Overflow.{parse_bits_overflow}

abbrev three_bytes : List ℕ
three_bytes = 7 ∷ 8 ∷ 9 ∷ []

decode-encode_example :
    (encode 5 request_msg 66 three_bytes 2 >>= λ m. decode (some m) (zeros 1000))
    ≡ ok (record {
      type = request_msg;
      session_id = 66;
      content = 7 ∷ 8 ∷ zeros 998;
      data_size = 1001;
    })
decode-encode_example =
    decode-encode 5 request_msg 66 three_bytes 2 (zeros 1000) (omega arith) (omega arith)
      (omega arith) (length-zeros 1000)

encode_branches_example :
    ((encode 5 request_msg 66 three_bytes 2 ≡ err options_too_long_err) ↔ (1000 < 2))
    × ((encode 5 request_msg 66 three_bytes 2 ≡ err session_id_too_long_err)
        ↔ ((2 ≤ 1000) × (16777215 < 66)))
    × ((2 ≤ 1000)
        → (66 ≤ 16777215)
        → encode 5 request_msg 66 three_bytes 2 ≡ ok (encoded 5 request_msg 66 three_bytes 2))
encode_branches_example = encode_branches 5 request_msg 66 three_bytes 2 (omega arith)

abbrev request : Msg
request = encoded 5 request_msg 66 three_bytes 2

decode-header_example :
    (request.header ≡ msg_type_code request_msg * 16777216 + 66) × (66 ≤ 16777215)
decode-header_example =
    decode-header request (zeros 1000)
      (record {
        type = request_msg;
        session_id = 66;
        content = 7 ∷ 8 ∷ zeros 998;
        data_size = 1001;
      })
      (unfold msg_type_code in omega arith)
      (decode-encoded 5 request_msg 66 three_bytes 2 (zeros 1000) (omega arith) (omega arith)
        (omega arith) (length-zeros 1000))

abbrev strange : Msg
strange = record { header = 7 * 16777216; device_id = 0; payload = zeros 1001 }

read_pdu-write_pdu_example :
    (m : Msg) × (write_pdu (some 3) 5 (wrote sizeof_msg) three_bytes 2 request_msg 66
      ≡ some (record { code = success; handed = some m }))
    × (read_pdu little (some 4) (got (msg_bytes little [] m)) (zeros 1012)
        ≡ ok (record {
          type = request_msg;
          session_id = 66;
          content = 7 ∷ 8 ∷ zeros 998;
          data_size = 1001;
        }))
read_pdu-write_pdu_example =
    read_pdu-write_pdu little 3 4 5 three_bytes [] (zeros 1012) 2 request_msg 66 (omega arith)
      (omega arith) (omega arith) (omega arith)

read_pdu-closed_example :
    read_pdu little (some 4) (got []) (msg_bytes little [] request)
    ≡ read_pdu little (some 4) (got (msg_bytes little [] request)) (zeros 1012)
read_pdu-closed_example = read_pdu-closed little 4 request [] (zeros 1012) (
    encoded-IsMsg 5 request_msg 66 three_bytes 2 (omega arith) (omega arith) (omega arith)
      (omega arith))

abbrev sending : Sending
sending = record { code = success; handed = some request }

-- "::1", with the byte that ends it.
abbrev address : List ℕ
address = 58 ∷ 58 ∷ 49 ∷ []

parse_bits-to_bits_example :
    (bits : List ℕ) × (to_bits big
        (record { type = locator; len = 3; value = some (address ++ 0 ∷ []) })
      ≡ some bits)
    × (length bits ≡ 3 + 4)
    × (parse_bits big (9 ∷ 9 ∷ 9 ∷ 0 ∷ []) (bits ++ zeros 2)
        ≡ if_room address
            (9 ∷ 9 ∷ 9 ∷ 0 ∷ [])
            (record { type = locator; len = 3; value = some (address ++ 0 ∷ []) }))
parse_bits-to_bits_example =
    parse_bits-to_bits big locator address (0 ∷ []) (9 ∷ 9 ∷ 9 ∷ 0 ∷ []) (zeros 2) (omega arith)
      (omega arith) (omega arith)

objective_parse_bits-to_bits_example :
    (bits : List ℕ) × (objective_to_bits little (with_text negotiation 5 0 address (0 ∷ []))
      ≡ some bits)
    × (length bits ≡ 3 + 6)
    × (objective_parse_bits little (1 ∷ 2 ∷ 3 ∷ 4 ∷ []) (bits ++ zeros 2)
        ≡ if_room address (1 ∷ 2 ∷ 3 ∷ 4 ∷ []) (with_text negotiation 5 0 address (4 ∷ [])))
objective_parse_bits-to_bits_example =
    objective_parse_bits-to_bits little negotiation 5 0 address (0 ∷ []) (1 ∷ 2 ∷ 3 ∷ 4 ∷ [])
      (zeros 2) (omega arith) (omega arith) (omega arith) (omega arith) (omega arith)

-- A locator option of three bytes, and a block of the two bytes that are asked for.
parse_bits_overflow_example :
    (parse_bits little (0 ∷ 0 ∷ []) (4 ∷ 0 ∷ 3 ∷ 0 ∷ address) ≡ none)
    × (objective_parse_bits little (0 ∷ 0 ∷ []) (4 ∷ 0 ∷ 3 ∷ 0 ∷ address) ≡ none)
parse_bits_overflow_example =
    parse_bits_overflow little (0 ∷ 0 ∷ []) (4 ∷ 0 ∷ 3 ∷ 0 ∷ address) 3 refl (omega arith)

-- An option as it lies in memory on a machine that stores the low byte first.
address_bits :
    objective_to_bits little (with_text negotiation 5 1 address (0 ∷ []))
    ≡ some (6 ∷ 0 ∷ 3 ∷ 0 ∷ 1 ∷ 5 ∷ address)
unfolding objective_to_bits value_field option_type_code memcpy zeros
address_bits = refl
