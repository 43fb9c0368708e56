-- ===== src/Negotiation/Answered.antt =====
-- `synchronize` of a client and `reply` of the session that it asks.
use ietf_anima_signaling_pro.Base.{
  none, Bool-cases, inl, inr, leb, ◌&&◌, if◌then◌else◌, if_room, if_room-some, ℕ, ◌+◌, ◌^◌, ◌%◌,
  ◌≤◌, ◌<◌, ◌≡◌, refl, ap, ◌∙◌, u8, Endian, List, ◌∷◌, ◌++◌, length, drop, IsText, some, false,
  arith,
}
use ietf_anima_signaling_pro.Errno.{success, ok}
use ietf_anima_signaling_pro.Msg.{Msg, request_msg, nego_end_msg, max_session_id, max_string_length}
use ietf_anima_signaling_pro.Msg.Codec.{encoded}
use ietf_anima_signaling_pro.Pdu.{msg_bytes, got, Written, wrote, sizeof_msg, read_pdu}
use ietf_anima_signaling_pro.Pdu.Sockets.{SockAddr, Converted, converted}
use ietf_anima_signaling_pro.GdnpOption.{
  synchronization, ObjectiveOption, get_value, objective_parse_bits,
}
use ietf_anima_signaling_pro.GdnpOption.Overflow.{parse_bits_overflow}
use ietf_anima_signaling_pro.Session.Run.{reply, Asa}
use ietf_anima_signaling_pro.Session.{Session, session_end}
use ietf_anima_signaling_pro.Client.{off}
use ietf_anima_signaling_pro.Negotiation.{Incoming, Talk, is_accept}
use ietf_anima_signaling_pro.Negotiation.Course.{ended, undefined}
use ietf_anima_signaling_pro.Negotiation.Synchronized.{request_bits-text}
use ietf_anima_signaling_pro.Session.Run.Synchronized.{reply-synchronization}
use ietf_anima_signaling_pro.GdnpOption.Roundtrip.{with_text}
use ietf_anima_signaling_pro.GdnpOption.Uniform.{
  parse_bits-objective, objective_parse_bits-length, without_value,
}
use ietf_anima_signaling_pro.Negotiation.Course.Start.{
  is_broadcast, synchronize, synchronize_with, begun, is_broadcast, synchronize,
}
use ietf_anima_signaling_pro.Negotiation.Heard.{
  do_negotiate-no_option, do_negotiate-no_objective, synchronized, synchronize_with-answered,
  synchronize_with-unread,
}

-- A client that synchronizes the text `u` and reads the reply `m` of the session.
module _ {Ip : Type 0} (inet_ntop : Ip → List ℕ) (e : Endian) (asa : Asa) (nego_addr : SockAddr Ip)
    (broadcast : Ip) (u r local chunk : List ℕ) (random : ℕ) (t : Talk) (fd sent : ℕ) (ip : Ip)
    (more : List (Converted Ip)) (ws : List (ℕ × Written)) (i : Incoming) (is : List Incoming) where
  -- The client's script, with the message `m` as what it reads first.
  abbrev pub reading_reply : List ℕ → Msg → Talk
  reading_reply pad m = record t {
    writes = (sent, wrote sizeof_msg) ∷ ws;
    reads = record i { reading = got (msg_bytes e pad m) } ∷ is;
  }

  -- The reply `m` of the session, whose content is the option of the text `w`, and the three blocks.
  synchronize_with-told :
      (m : Msg) (pad block content w : List ℕ) (loop flag : ℕ)
      → length block ≡ max_string_length
      → length content ≡ max_string_length
      → length w ≤ 994
      → read_pdu e (some fd) (got (msg_bytes e pad m)) i.stale
        ≡ ok (record {
          type = nego_end_msg;
          session_id = random % (max_session_id + 1);
          content = content;
          data_size = 1001;
        })
      → ((c : List ℕ)
          → objective_parse_bits e c content
            ≡ if_room w c (with_text synchronization loop flag w (drop (length w) c)))
      → synchronize_with e asa chunk (some fd) (converted ip ∷ more) (record (reading_reply pad m) {
        client = record (begun random 1 t.client) { cur_states = off };
        buffer = block;
      })
        ≡ (if leb (length w) (length i.option_chunk)
              && (leb (length w) (length i.objective_chunk) && leb (length w) (length chunk))
            then ended success (
                synchronized e asa chunk fd sent ip more
                  (record (reading_reply pad m) { buffer = block })
                  (begun random 1 t.client)
                  ws
                  (record i { reading = got (msg_bytes e pad m) })
                  is
                  content
                  1001
                  (record { type = synchronization; len = length w; value = none })
                  (with_text synchronization loop flag w (drop (length w) i.objective_chunk))
                  (with_text synchronization loop flag w (drop (length w) chunk)))
            else undefined)
  unfolding is_accept
  synchronize_with-told m pad block content w loop flag l whole short came parsed =
      elim (Bool-cases (leb (length w) (length i.option_chunk))) [
        | inr small ↦ rw small (
            synchronize_with-unread e asa chunk fd sent ip more
              (record (reading_reply pad m) { buffer = block }) (begun random 1 t.client) ws
              (record i { reading = got (msg_bytes e pad m) }) is content 1001
              (record { type = synchronization; len = 0; value = none })
              (without_value synchronization) (without_value synchronization) (omega arith)
              (λ z. absurd (omega (arith, z))) refl refl l came
              (do_negotiate-no_option e asa _ _ nego_end_msg
                (parse_bits_overflow e i.option_chunk content (length w)
                  (objective_parse_bits-length e w content _
                    (parsed w ∙ if_room-some w w _ (omega arith)))
                  (ground (arith, small))).0))
        | inl room1 ↦ elim (Bool-cases (leb (length w) (length i.objective_chunk))) [
          | inr small ↦
              rw (room1, small)
                (synchronize_with-unread e asa chunk fd sent ip more
                  (record (reading_reply pad m) { buffer = block }) (begun random 1 t.client) ws
                  (record i { reading = got (msg_bytes e pad m) }) is content 1001
                  (record { type = synchronization; len = 0; value = none })
                  (without_value synchronization) (without_value synchronization) (omega arith)
                  (λ z. absurd (omega (arith, z))) refl refl l came
                  (do_negotiate-no_objective e asa _ _ nego_end_msg
                    (parsed i.objective_chunk ∙ rw small refl)))
          | inl room2 ↦
              let known_option : objective_parse_bits e i.objective_chunk content
                  ≡ some
                      (with_text synchronization loop flag w (drop (length w) i.objective_chunk)) =
                parsed i.objective_chunk ∙ rw room2 refl in
              let (first, known_first) =
                parse_bits-objective e i.objective_chunk i.option_chunk content _ known_option
                  (ground (arith, room1)) (omega (arith, whole, short)) in
              rw (room1, room2)
                (synchronize_with-answered e asa chunk fd sent ip more
                  (record (reading_reply pad m) { buffer = block }) (begun random 1 t.client) ws
                  (record i { reading = got (msg_bytes e pad m) }) is content 1001 _ _ _
                  (omega arith) (λ z. absurd (omega (arith, z))) refl refl l whole came known_first
                  refl known_option (leb (length w) (length chunk)) (parsed chunk))
        ]
      ]

  -- A client whose address is not that of the broadcast synchronizes a text of 1 to 994 bytes, over
  -- a connection that is set up at once and takes the request whole. It reads the reply of a
  -- session that has the option `o` in hand, of the type Synchronization, takes the reply whole,
  -- and has an agent that answers with a text of 1 to 994 bytes. Both are of the same byte order
  -- and share the session's id. Then the session has ended with one message sent. The client parses
  -- that three times, each time into a block that `malloc` returns for two bytes. If all three have
  -- room for the agent's text (two bytes are all that is promised), `synchronize` returns SUCCESS,
  -- the client has handed one message to the system, and has given the agent's text to
  -- `do_configuration`. If one of them has not, a parser writes past its block, and what
  -- `synchronize` does is undefined.
  pub synchronize-reply :
      (server : Asa) (s : Session) (random' fd' : ℕ) (o : ObjectiveOption) (w q pad : List ℕ)
      → is_broadcast inet_ntop nego_addr broadcast ≡ some false
      → IsText u
      → 0 < length u
      → length u ≤ 994
      → length local ≡ max_string_length
      → random' < 2 ^ 32
      → s.tcp_sock ≡ some fd'
      → s.session_id ≡ random % (max_session_id + 1)
      → o.type ≡ synchronization
      → o.flag < 256
      → server.asa_negotiate_result (get_value o.base) ≡ w ++ 0 ∷ q
      → IsText w
      → 0 < length w
      → length w ≤ 994
      → (m request : Msg) × (v : Talk) × (reply e server random' (wrote sizeof_msg) s o
          ≡ some (record {
            session = record s { cur_state = session_end };
            code = success;
            handed = some m;
            end_thread = false;
          }))
        × (synchronize inet_ntop e asa nego_addr broadcast
              (u ++ 0 ∷ r)
              random
              local
              chunk
              (some fd)
              (converted ip ∷ more)
              (reading_reply pad m)
            ≡ (if leb (length w) (length i.option_chunk)
                  && (leb (length w) (length i.objective_chunk) && leb (length w) (length chunk))
                then ended success v
                else undefined))
        × (v.configured ≡ (w ++ drop (length w) chunk) ∷ t.configured)
        × (v.handed ≡ request ∷ t.handed)
  unfolding synchronize get_value is_accept
  synchronize-reply server s random' fd' o w q pad other text pos short size small sock sid sync hf
        answer text' pos' short' =
      let (block, printed, l, _) =
        request_bits-text e synchronization u r local 1 text pos short (omega arith) size in
      let (m, content, replied, carried, whole, parsed) =
        reply-synchronization e server random' s fd' o w q small sock (omega (arith, sid)) sync hf
          answer text' pos' short' in
      (
        m,
        encoded sent request_msg (random % 16777216) block 1000,
        synchronized e asa chunk fd sent ip more (record (reading_reply pad m) { buffer = block })
            (begun random 1 t.client) ws (record i { reading = got (msg_bytes e pad m) }) is content
            1001 (record { type = synchronization; len = length w; value = none })
            (with_text synchronization (u8 (o.loop_count + 255)) o.flag w
              (drop (length w) i.objective_chunk))
            (with_text synchronization (u8 (o.loop_count + 255)) o.flag w (drop (length w) chunk)),
        replied,
        rw (synchronize, other, printed)
            (synchronize_with-told m pad block content w (u8 (o.loop_count + 255)) o.flag l whole
              short'
              (carried fd pad i.stale
                ∙ ap
                    (λ n. ok (record {
                      type = nego_end_msg;
                      session_id = n;
                      content = content;
                      data_size = 1001;
                    }))
                    sid)
              parsed),
        refl,
        refl,
      )
