-- ===== src/Negotiation/Begun.antt =====
-- Client_TCP.cpp, `negotiate`: what it leaves to its thread.
use mathlib.Core.Option.{some-injective}
use ietf_anima_signaling_pro.Base.{
  if_room-some, sym, ap, ◌∙◌, subst, true, if◌then◌else◌, ℕ, ◌%◌, ◌+◌, ◌<◌, ◌≤◌, ◌≡◌, refl, Endian,
  List, ◌∷◌, ◌++◌, length, drop, IsText, some, Bool, false, arith,
}
use ietf_anima_signaling_pro.Errno.{Errno, success, error}
use ietf_anima_signaling_pro.Msg.{max_session_id, max_string_length}
use ietf_anima_signaling_pro.Pdu.Sockets.{SockAddr}
use ietf_anima_signaling_pro.GdnpOption.{ObjectiveOption, negotiation, objective_parse_bits}
use ietf_anima_signaling_pro.GdnpOption.Roundtrip.{with_text}
use ietf_anima_signaling_pro.Client.{Client, off}
use ietf_anima_signaling_pro.Negotiation.Synchronized.{request_bits-text}
use ietf_anima_signaling_pro.Negotiation.Course.Start.{is_broadcast, negotiate}

-- A client whose address is not that of the broadcast starts to negotiate a text of 1 to 994 bytes:
-- SUCCESS says that the thread was created, and otherwise the code is ERROR. Either way the session
-- id is new and in its range, the loop count 5 and the flag 0, the state is as it was, and the thread's
-- buffer, which stays 1000 bytes long, is parsed in the same byte order to a negotiation option with
-- the text, the loop count and the flag.
pub negotiate-request :
    {Ip : Type 0} (inet_ntop : Ip → List ℕ) (e : Endian) (nego_addr : SockAddr Ip) (broadcast : Ip)
    (u r chunk : List ℕ) (random : ℕ) (created : Bool) (c : Client)
    → is_broadcast inet_ntop nego_addr broadcast ≡ some false
    → IsText u
    → 0 < length u
    → length u ≤ 994
    → length c.buffer_nego_obj ≡ max_string_length
    → length u ≤ length chunk
    → (block : List ℕ) × (negotiate inet_ntop e nego_addr broadcast (u ++ 0 ∷ r) random created c
        ≡ some (
          if created then success else error,
          record c {
            session_id = random % (max_session_id + 1);
            loop_count = 5;
            flag = 0;
            buffer_nego_obj = block;
          },
        ))
      × (random % (max_session_id + 1) ≤ max_session_id)
      × (length block ≡ max_string_length)
      × (objective_parse_bits e chunk block
          ≡ some (with_text negotiation 5 0 u (drop (length u) chunk)))
unfolding negotiate
negotiate-request inet_ntop e nego_addr broadcast u r chunk random created c other text pos short
      size room =
    let (block, printed, l, parsed) =
      request_bits-text e negotiation u r c.buffer_nego_obj 5 text pos short (omega arith) size in
    (
      block,
      rw (negotiate, other, printed) refl,
      omega arith,
      l,
      parsed chunk ∙ if_room-some u chunk _ room,
    )

-- The client that `negotiate` leaves to its thread.
pub record IsBegun (e : Endian) (chunk : List ℕ) (o : ObjectiveOption) (c c' : Client)
    : Type 0 where
  pub is_off : c' ≡ record c' { cur_states = off }
  pub rounds : c'.loop_count ≡ 5
  pub stored : c'.last_top_options ≡ c.last_top_options
  pub in_range : c'.session_id ≤ max_session_id
  pub full : length c'.buffer_nego_obj ≡ max_string_length
  pub parsed : objective_parse_bits e chunk c'.buffer_nego_obj ≡ some o

pub negotiate-IsBegun :
    {Ip : Type 0} (inet_ntop : Ip → List ℕ) (e : Endian) (nego_addr : SockAddr Ip) (broadcast : Ip)
    (u r chunk : List ℕ) (random : ℕ) (c c' : Client)
    → is_broadcast inet_ntop nego_addr broadcast ≡ some false
    → IsText u
    → 0 < length u
    → length u ≤ 994
    → length c.buffer_nego_obj ≡ max_string_length
    → length u ≤ length chunk
    → negotiate inet_ntop e nego_addr broadcast
        (u ++ 0 ∷ r)
        random
        true
        (record c { cur_states = off })
      ≡ some (success, c')
    → IsBegun e chunk (with_text negotiation 5 0 u (drop (length u) chunk)) c c'
negotiate-IsBegun inet_ntop e nego_addr broadcast u r chunk random c c' other text pos short size
      room done =
    let (block, made, small, whole, parsed) =
      negotiate-request inet_ntop e nego_addr broadcast u r chunk random true
        (record c { cur_states = off }) other text pos short size room in
    subst (IsBegun e chunk (with_text negotiation 5 0 u (drop (length u) chunk)) c)
      (ap (λ (x : Errno × Client). x.1) (some-injective _ _ (sym made ∙ done)))
      (record {
        is_off = refl;
        rounds = refl;
        stored = refl;
        in_range = small;
        full = whole;
        parsed = parsed;
      })
