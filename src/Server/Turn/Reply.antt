-- ===== src/Server/Turn/Reply.antt =====
-- Server.cpp, `run`: the reply to a discovery.
use ietf_anima_signaling_pro.Base.{
  if_room, take_all, length-zeros, subst, ℕ, ◌+◌, ◌-◌, ◌^◌, ◌≤◌, ◌<◌, ◌≡◌, refl, sym, ap, ◌∙◌,
  Endian, List, [], ◌∷◌, ◌++◌, length, drop, zeros, IsText, strlen_text, none, some, arith,
}
use ietf_anima_signaling_pro.Errno.{◌>>=◌, ok, success}
use ietf_anima_signaling_pro.Msg.{
  MsgType, Msg, discovery_msg, response_msg, Decoded, max_string_length, max_session_id,
}
use ietf_anima_signaling_pro.GdnpOption.{locator, to_bits, parse_bits}
use ietf_anima_signaling_pro.GdnpOption.Roundtrip.{parse_bits-to_bits}
use ietf_anima_signaling_pro.Pdu.{
  written_errno, wrote, got, sizeof_msg, Sending, msg_bytes, send_pdu, recv_pdu, read_pdu,
  write_pdu,
}
use ietf_anima_signaling_pro.Msg.Codec.{encoded, decode-encoded}
use ietf_anima_signaling_pro.Pdu.Transfer.{encoded-IsMsg, write_pdu-encoded, read_pdu-whole}
use ietf_anima_signaling_pro.Server.Turn.{
  answer_udp, Master, World, replied, interface_at, locator_option, discovery_reply, is_discovery,
  serve_udp,
}

locator_option-text :
    (s : List ℕ)
    → IsText s
    → length s < 2 ^ 16
    → locator_option s
      ≡ some (record { type = locator; len = length s; value = some (s ++ 0 ∷ []) })
unfolding locator_option
locator_option-text s t h = rw (strlen_text s [] t) (ground arith)

-- The bits of the locator option, and what every parser of the same byte order makes of them.
locator_bits :
    (e : Endian) (s : List ℕ)
    → IsText s
    → 0 < length s
    → length s < 2 ^ 16
    → (bits : List ℕ) × (to_bits e
          (record { type = locator; len = length s; value = some (s ++ 0 ∷ []) })
        ≡ some bits)
      × (length bits ≡ length s + 4)
      × ((chunk rest : List ℕ)
          → parse_bits e chunk (bits ++ rest)
            ≡ if_room s chunk (record {
              type = locator;
              len = length s;
              value = some (s ++ drop (length s) chunk);
            }))
locator_bits e s t pos short =
    let (bits, p, l, _) = parse_bits-to_bits e locator s (0 ∷ []) s [] t pos short in
    (
      bits,
      p,
      l,
      λ chunk rest.
          let (again, q, k, parsed) =
            parse_bits-to_bits e locator s (0 ∷ []) chunk rest t pos short in
          let same : again ≡ bits = ap (λ o. elim o [ none ↦ [] | some b ↦ b ]) (sym q ∙ p) in
          subst
            (λ b.
              parse_bits e chunk (b ++ rest)
              ≡ if_room s chunk (record {
                type = locator;
                len = length s;
                value = some (s ++ drop (length s) chunk);
              }))
            same parsed,
    )

-- `send_pdu` of a whole message, and what a receiver of the same byte order gets.
sent_and_received :
    {Address : Type 0} (e : Endian) (fd random sid : ℕ) (bits : List ℕ) (t : MsgType)
    (client : Address)
    → random < 2 ^ 32
    → sid ≤ max_session_id
    → length bits ≤ max_string_length
    → (m : Msg) × (send_pdu (some fd) random (wrote sizeof_msg) bits (length bits) t sid client
        ≡ some (record { code = success; handed = some m }, client))
      × ((fd' : ℕ) (pad stale : List ℕ) (from : Address)
          → recv_pdu e (some fd') (got (msg_bytes e pad m)) from stale
            ≡ ok (
              record {
                type = t;
                session_id = sid;
                content = bits ++ zeros (max_string_length - length bits);
                data_size = max_string_length + 1;
              },
              from,
            ))
unfolding send_pdu recv_pdu write_pdu read_pdu written_errno
sent_and_received e fd random sid bits t client hr hs hn =
    let n = length bits in
    let m = encoded random t sid bits n in
    let valid = encoded-IsMsg random t sid bits n hr hs hn (omega arith) in
    (
      m,
      ap (λ o. elim o [ none ↦ none | some r ↦ some (r, client) ])
          (write_pdu-encoded fd random (wrote sizeof_msg) bits n t sid hs hn (omega arith)),
      λ fd' pad stale from.
          ap (λ o. o >>= λ d. ok (d, from))
            (read_pdu-whole e fd' m pad stale valid
              ∙ decode-encoded random t sid bits n (zeros 1000) hs hn (omega arith)
                  (length-zeros 1000)
              ∙ ap
                  (λ b. ok (record {
                    type = t;
                    session_id = sid;
                    content = b ++ zeros (1000 - n);
                    data_size = 1001;
                  }))
                  (take_all n bits (omega arith))),
    )

-- What a client finds in the reply to its DISCOVERY_MSG: the type, its session id, and, in the
-- content, the locator option with the text `s`: `parse_bits` finds it there if the block that it
-- gets from `malloc` has room for the text, and writes past the block if not.
pub record Answers {Address : Type 0} (e : Endian) (session_id : ℕ) (s : List ℕ) (m : Msg)
    (from : Address) : Type 0 where
  pub content : List ℕ
  pub arrives :
      (fd : ℕ) (pad stale : List ℕ)
      → recv_pdu e (some fd) (got (msg_bytes e pad m)) from stale
        ≡ ok (
          record {
            type = response_msg;
            session_id = session_id;
            content = content;
            data_size = max_string_length + 1;
          },
          from,
        )
  pub parses :
      (chunk : List ℕ)
      → parse_bits e chunk content
        ≡ if_room s chunk
            (record { type = locator; len = length s; value = some (s ++ drop (length s) chunk) })

discovery_reply-bits :
    {Address : Type 0} (e : Endian) (w : World Address) (m : Master) (fd sid : ℕ) (client : Address)
    (s bits : List ℕ)
    → m.udp_sock ≡ some fd
    → interface_at 1 m.local_interfaces ≡ some s
    → IsText s
    → length s < 2 ^ 16
    → to_bits e (record { type = locator; len = length s; value = some (s ++ 0 ∷ []) }) ≡ some bits
    → length bits ≡ length s + 4
    → discovery_reply e w m sid client
      ≡ send_pdu (some fd) w.random w.written bits (length bits) response_msg sid client
unfolding discovery_reply
discovery_reply-bits e w m fd sid client s bits udp second t short p l =
    rw (second, locator_option-text s t short, p, udp, l) refl

answer_udp-discovery :
    {Address : Type 0} (e : Endian) (w : World Address) (m : Master) (d : Decoded)
    (client : Address) (r : Sending × Address)
    → d.type ≡ discovery_msg
    → discovery_reply e w m d.session_id client ≡ some r
    → answer_udp e w m (ok (d, client)) ≡ some (m, replied r)
unfolding answer_udp is_discovery
answer_udp-discovery e w m d client r type replies = rw (type, replies) refl

-- A DISCOVERY_MSG is answered, where the system sends the whole answer and the second local address
-- is a text of 1 to 996 bytes: to the sender goes one message, which a receiver of the same byte
-- order decodes as a RESPONSE_MSG of the same session id. If the block that `malloc` returns to the
-- receiver's parser for two bytes has room for that address (two bytes are all that is promised),
-- the receiver finds the locator option with it; if not, the parser writes past the block, and what
-- it does is undefined. The master stays as it is.
pub serve_udp-discovery :
    {Address : Type 0} (e : Endian) (w : World Address) (m : Master) (fd : ℕ) (d : Decoded)
    (client : Address) (s : List ℕ)
    → m.udp_sock ≡ some fd
    → recv_pdu e m.udp_sock w.reading w.from w.stale ≡ ok (d, client)
    → d.type ≡ discovery_msg
    → d.session_id ≤ max_session_id
    → interface_at 1 m.local_interfaces ≡ some s
    → IsText s
    → 0 < length s
    → length s ≤ 996
    → w.random < 2 ^ 32
    → w.written ≡ wrote sizeof_msg
    → (answer : Msg) × (serve_udp e w m
        ≡ some (m, replied (record { code = success; handed = some answer }, client)))
      × ((from : Address) → Answers e d.session_id s answer from)
unfolding serve_udp
serve_udp-discovery e w m fd d client s udp came type sid second t pos short random sent =
    let (bits, p, l, parse) = locator_bits e s t pos (omega (arith, short)) in
    let (answer, q, arrives) =
      sent_and_received e fd w.random d.session_id bits response_msg client random sid
        (omega (arith, l, short)) in
    (
      answer,
      ap (answer_udp e w m) came
          ∙ answer_udp-discovery e w m d client _ type (
              discovery_reply-bits e w m fd d.session_id client s bits udp second t
                (omega (arith, short)) p l
              ∙ ap
                  (λ x.
                    send_pdu (some fd) w.random x bits (length bits) response_msg d.session_id
                      client)
                  sent
              ∙ q),
      λ from. record {
        content = bits ++ zeros (1000 - length bits);
        arrives = λ fd' pad stale. arrives fd' pad stale from;
        parses = λ chunk. parse chunk _;
      },
    )
