-- ===== src/Client/Discovery/Answered.antt =====
-- Client.cpp, `discover`: a discovery that a server answers.
use ietf_anima_signaling_pro.Base.{
  leb, Bool-cases, inl, inr, if_room, Bool, if◌then◌else◌, Bool, ℕ, ◌+◌, ◌≤◌, ◌≡◌, refl, ap, ◌∙◌,
  Endian, List, ◌∷◌, ◌++◌, length, drop, some,
}
use ietf_anima_signaling_pro.Errno.{success}
use ietf_anima_signaling_pro.Msg.{Msg, response_msg, Decoded, max_string_length}
use ietf_anima_signaling_pro.GdnpOption.{locator, parse_bits, get_value}
use ietf_anima_signaling_pro.Pdu.{recv_pdu, got, msg_bytes, Written}
use ietf_anima_signaling_pro.Client.{
  Client, off, informed, Arrival, datagram, Script, done, undefined, undefined,
}
use ietf_anima_signaling_pro.Client.Receive.{recv}
use ietf_anima_signaling_pro.Client.Retry.{silence, whole, repeats, IsAsking}
use ietf_anima_signaling_pro.Client.Response.{recv-response}
use ietf_anima_signaling_pro.Client.Discovery.{is_locator, is_response, after_recv}
use ietf_anima_signaling_pro.Server.Turn.Reply.{Answers}

-- The message that the caller of `recv` gets.
abbrev pub response : ℕ → List ℕ → Decoded
response session_id content = record {
  type = response_msg;
  session_id = session_id;
  content = content;
  data_size = max_string_length + 1;
}

-- The address after `inet_pton` of the text `v`.
abbrev pub taken : (List ℕ → Bool) → List ℕ → Client → List ℕ
taken is_address v c = if is_address v then v else c.nego_addr

after_recv-locator :
    (is_address : List ℕ → Bool) (e : Endian) (chunk : List ℕ) (c : Client) (s : Script)
    (sid len : ℕ) (content text v : List ℕ)
    → parse_bits e chunk content
      ≡ if_room text chunk (record { type = locator; len = len; value = some v })
    → after_recv is_address e chunk
        (done success (record c { received = some (response sid content) }) s)
      ≡ (if leb (length text) (length chunk)
          then done success
              (record c {
                cur_states = off;
                nego_addr = taken is_address v c;
                received = some (response sid content);
              })
              s
          else undefined)
unfolding after_recv is_response is_locator get_value
after_recv-locator is_address e chunk c s sid len content text v h =
    elim (Bool-cases (leb (length text) (length chunk))) [
      | inl fits ↦ rw (h, fits) refl
      | inr short ↦ rw (h, short) refl
    ]

-- A client that has asked, and the answer that a server makes to a DISCOVERY_MSG of its session: if
-- it comes after no more silences than the client has tries left, and the block of `parse_bits` has
-- room for the text `s` of the server's locator option, then `discover` succeeds and the client is
-- OFF again. What `inet_pton` is given begins with this text; what follows the text is what the
-- block held. If it is no address, the client keeps the address that it had. Without the room, the
-- parser writes past the block.
pub after_recv-answered :
    (is_address : List ℕ → Bool) (e : Endian) (stale chunk pad : List ℕ) (fd n : ℕ) (rs : List ℕ)
    (c : Client) (ws : List (ℕ × Written)) (rest : List Arrival) (handed : List Msg) (s : List ℕ)
    (answer : Msg) (a : Answers e c.session_id s answer tt)
    → IsAsking fd n c
    → c.try_times + length rs ≤ 5
    → after_recv is_address e chunk (
        recv e stale c (record {
          writes = whole rs ++ ws;
          arrivals = silence (length rs) ++ datagram (got (msg_bytes e pad answer)) ∷ rest;
          handed = handed;
        }))
      ≡ (if leb (length s) (length chunk)
          then done success
              (record c {
                cur_states = off;
                try_times = 0;
                received = some (response c.session_id a.content);
                nego_addr = taken is_address (s ++ drop (length s) chunk) c;
              })
              (record {
                writes = ws;
                arrivals = rest;
                handed = repeats c.session_id c.last_top_options n rs handed;
              })
          else undefined)
after_recv-answered is_address e stale chunk pad fd n rs c ws rest handed s answer a i tries =
    ap (after_recv is_address e chunk) (
      recv-response e stale fd n rs c ws _ (response c.session_id a.content) rest handed i tries
        (ap (λ d. recv_pdu e d (got (msg_bytes e pad answer)) tt stale) i.opened
          ∙ a.arrives fd pad stale)
        refl refl)
    ∙ after_recv-locator is_address e chunk (record c { cur_states = informed; try_times = 0 }) _
        c.session_id (length s) a.content s (s ++ drop (length s) chunk) (a.parses chunk)
