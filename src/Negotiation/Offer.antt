-- ===== src/Negotiation/Offer.antt =====
-- Client_TCP.cpp, `do_negotiate`: the answer of the client to an offer.
use mathlib.Core.List.{append-nil}
use ietf_anima_signaling_pro.Base.{
  if_room, subst, ◌==◌, ℕ, ◌+◌, ◌-◌, ◌^◌, ◌≤◌, ◌<◌, ◌≡◌, ◌≢◌, refl, ap, ◌∙◌, u8, u16, u32, Endian,
  List, ◌∷◌, ◌++◌, length, length-append, length-drop, take_all, drop, zeros, length-zeros,
  memcpy_fits, memcpy_fill, strlen_text, IsText, some, false, arith,
}
use ietf_anima_signaling_pro.Msg.{MsgType, Msg, nego_msg, max_session_id, max_string_length}
use ietf_anima_signaling_pro.Msg.Codec.{encoded}
use ietf_anima_signaling_pro.Pdu.{Written, wrote, sizeof_msg}
use ietf_anima_signaling_pro.Pdu.Carried.{Carries, encoded-Carries}
use ietf_anima_signaling_pro.GdnpOption.{
  GdnpOption, ObjectiveOption, negotiation, get_value, parse_bits, objective_parse_bits,
}
use ietf_anima_signaling_pro.GdnpOption.Roundtrip.{with_text}
use ietf_anima_signaling_pro.GdnpOption.Uniform.{objective_text, objective_parse_bits-bytes}
use ietf_anima_signaling_pro.Session.Run.{Asa}
use ietf_anima_signaling_pro.Client.{Client, negoing}
use ietf_anima_signaling_pro.Negotiation.Writes.{write_then-whole}
use ietf_anima_signaling_pro.Negotiation.{
  after_offer, defined, Incoming, Talk, unread, reads_on, write_then, with_client,
  nego_obj_opt2bits, offer_bytes, remember_first, send_offer, handle, do_negotiate,
}

-- A block that is as long as a message may be.
whole-Carries :
    (e : Endian) (random : ℕ) (t : MsgType) (sid : ℕ) (block : List ℕ)
    → random < 2 ^ 32
    → sid ≤ max_session_id
    → length block ≡ max_string_length
    → Carries e (encoded random t sid block max_string_length) t sid block
unfolding zeros
whole-Carries e random t sid block hr hs size =
    subst (Carries e (encoded random t sid block max_string_length) t sid) (append-nil block) (
      subst (λ n. Carries e (encoded random t sid block n) t sid (block ++ zeros (1000 - n))) size
        (encoded-Carries e random t sid block hr hs (omega (arith, size))))

-- The bytes of an offer of the text `u`.
offer_bytes-text :
    (e : Endian) (c : Client) (u r send_buffer : List ℕ)
    → IsText u
    → 0 < length u
    → length u ≤ 994
    → length send_buffer ≡ max_string_length
    → (block : List ℕ) × (offer_bytes e c (u ++ 0 ∷ r) send_buffer ≡ some block)
      × (length block ≡ max_string_length)
      × ((chunk : List ℕ)
          → objective_parse_bits e chunk block
            ≡ if_room u chunk
                (with_text negotiation (u8 c.loop_count) (u8 c.flag) u (drop (length u) chunk)))
unfolding offer_bytes nego_obj_opt2bits
offer_bytes-text e c u r send_buffer text pos short size =
    let (bits, printed, l, parsed) =
      objective_text e negotiation (u8 c.loop_count) (u8 c.flag) u (0 ∷ r) text pos
        (omega (arith, short)) (omega arith) (omega arith) in
    let same : u16 (length u) ≡ length u = omega (arith, short) in
    (
      bits ++ drop (length u + 6) send_buffer,
      rw
          (
            strlen_text u r text,
            same,
            printed,
            memcpy_fits send_buffer bits (length u + 6) (omega (arith, size, short))
                (omega (arith, l)),
          )
          (ap (λ x. some (x ++ drop (length u + 6) send_buffer))
            (take_all (length u + 6) bits (omega (arith, l)))),
      omega (
        arith,
        l,
        size,
        short,
        length-append bits (drop (length u + 6) send_buffer),
        length-drop (length u + 6) send_buffer,
      ),
      λ chunk. parsed chunk (drop (length u + 6) send_buffer),
    )

pub remember_first-whole :
    (block : List ℕ) (t : Talk)
    → length block ≡ max_string_length
    → remember_first max_string_length block t
      ≡ some (with_client t (record t.client { last_top_options = block }))
unfolding remember_first
remember_first-whole block t size = rw (
  memcpy_fill (zeros 1000) block 1000 (length-zeros 1000) (omega (arith, size)),
  take_all 1000 block (omega (arith, size)),
)

send_offer-sent :
    (e : Endian) (i : Incoming) (t : Talk) (fd random : ℕ) (ws : List (ℕ × Written))
    (answer block : List ℕ)
    → t.client.tcp_sock ≡ some fd
    → t.client.session_id ≤ max_session_id
    → t.writes ≡ (random, wrote sizeof_msg) ∷ ws
    → offer_bytes e t.client answer i.send_buffer ≡ some block
    → length block ≡ max_string_length
    → send_offer e i t answer
      ≡ reads_on unread (record t {
        client = record t.client { last_top_options = block };
        writes = ws;
        handed = encoded random nego_msg t.client.session_id block max_string_length ∷ t.handed;
      })
unfolding send_offer
send_offer-sent e i t fd random ws answer block opened in_range writes printed size =
    ap (λ o. defined o (λ bytes. write_then t bytes max_string_length nego_msg (after_offer bytes)))
      printed
    ∙ write_then-whole t fd random ws block 1000 nego_msg (after_offer block) opened in_range writes
        (omega arith) (omega (arith, size))
    ∙ ap (λ o. defined o (reads_on unread))
        (remember_first-whole block
          (record t {
            writes = ws;
            handed = encoded random nego_msg t.client.session_id block 1000 ∷ t.handed;
          })
          size)

-- The client after a message whose objective option is `oo` and which it answers.
abbrev pub answering : ObjectiveOption → Client → Client
answering oo c = record c {
  cur_states = negoing;
  loop_count = u32 (oo.loop_count + 2 ^ 32 - 1);
  flag = oo.flag;
}

module _ (e : Endian) (asa : Asa) (i : Incoming) (t : Talk) (fd random : ℕ)
    (ws : List (ℕ × Written)) (o : GdnpOption) (oo : ObjectiveOption)
    (opened : t.client.tcp_sock ≡ some fd) (in_range : t.client.session_id ≤ max_session_id)
    (writes : t.writes ≡ (random, wrote sizeof_msg) ∷ ws) (small : random < 2 ^ 32)
    (first : parse_bits e i.option_chunk t.buffer ≡ some o)
    (second : objective_parse_bits e i.objective_chunk t.buffer ≡ some oo) where
  pub do_negotiate-handle :
      (type : MsgType)
      → do_negotiate e asa i t type
        ≡ handle e asa i
            (with_client t
              (record t.client { loop_count = u32 (oo.loop_count + 2 ^ 32 - 1); flag = oo.flag }))
            o
            oo
            type
  unfolding do_negotiate
  do_negotiate-handle type = rw (first, second) refl

  -- On a socket that takes the next message whole, a NEGO_MSG whose value the agent does not take,
  -- and whose loop count is not 1, is answered by one NEGO_MSG of the session, and the client reads
  -- on; the value is the agent's text, of 1 to 994 bytes, and the client remembers what it sent. Who
  -- reads that, in the same byte order, is given a negotiation option with the agent's text, the
  -- loop count that the client was sent less one, modulo 256, and the flag that it was sent, if the
  -- block that `malloc` returns to the reader's parser for two bytes has room for the text. If it
  -- has not, the parser writes past the block's end, and what it does is undefined. The client
  -- itself could parse the message that it answers.
  pub do_negotiate-offer :
      (u r chunk : List ℕ)
      → asa.asa_negotiate_result (get_value oo.base) ≡ u ++ 0 ∷ r
      → asa.asa_geq_fn (asa.asa_negotiate_result (get_value oo.base)) (get_value oo.base) ≡ false
      → IsText u
      → 0 < length u
      → length u ≤ 994
      → length i.send_buffer ≡ max_string_length
      → oo.loop_count ≢ 1
      → (m : Msg) × (content : List ℕ) × (do_negotiate e asa i t nego_msg
          ≡ reads_on unread (record t {
            client = record (answering oo t.client) { last_top_options = content };
            writes = ws;
            handed = m ∷ t.handed;
          }))
        × Carries e m nego_msg t.client.session_id content
        × (objective_parse_bits e chunk content
            ≡ if_room u chunk (
                with_text negotiation (u8 (oo.loop_count + 255)) oo.flag u (drop (length u) chunk)))
  unfolding handle
  do_negotiate-offer u r chunk answer refuses text pos short size more =
      let (lb, fb) = objective_parse_bits-bytes e i.objective_chunk t.buffer oo second in
      let counts : (u32 (oo.loop_count + 2 ^ 32 - 1) == 0) ≡ false = ground (arith, lb, more) in
      let (block, printed, l, parsed) =
        offer_bytes-text e (answering oo t.client) u r i.send_buffer text pos short size in
      (
        encoded random nego_msg t.client.session_id block max_string_length,
        block,
        do_negotiate-handle nego_msg
            ∙ rw (refuses, counts)
                (send_offer-sent e i _ fd random ws _ block opened in_range writes
                  (rw answer printed) l),
        whole-Carries e random nego_msg t.client.session_id block small in_range l,
        parsed chunk
            ∙ ap
                (λ n.
                  if_room u chunk (with_text negotiation n (u8 oo.flag) u (drop (length u) chunk)))
                {x = u8 (u32 (oo.loop_count + 2 ^ 32 - 1))} {y = u8 (oo.loop_count + 255)}
                (omega (arith, lb))
            ∙ ap
                (λ n.
                  if_room u chunk
                    (with_text negotiation (u8 (oo.loop_count + 255)) n u (drop (length u) chunk)))
                {x = u8 oo.flag} {y = oo.flag} (omega (arith, fb)),
      )
