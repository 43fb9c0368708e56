-- ===== src/Negotiation/Accepted.antt =====
-- `negotiate` of a client, the session that its request starts, and the client's thread.
use mathlib.Core.List.{append-nil}
use ietf_anima_signaling_pro.Base.{
  ℕ, ◌-◌, ◌^◌, ◌≤◌, ◌<◌, ◌≡◌, refl, ap, ◌∙◌, subst, Endian, List, [], ◌∷◌, ◌++◌, length, drop,
  zeros, strlen_text, IsText, some, true, false, arith,
}
use ietf_anima_signaling_pro.Errno.{success}
use ietf_anima_signaling_pro.Msg.{Msg, request_msg, max_session_id, max_string_length}
use ietf_anima_signaling_pro.Msg.Codec.{encoded}
use ietf_anima_signaling_pro.Pdu.{Written, wrote, sizeof_msg, got, msg_bytes}
use ietf_anima_signaling_pro.Pdu.Carried.{Carries, encoded-Carries}
use ietf_anima_signaling_pro.Pdu.Sockets.{SockAddr, Converted, converted}
use ietf_anima_signaling_pro.GdnpOption.{
  ObjectiveOption, negotiation, get_value, objective_parse_bits,
}
use ietf_anima_signaling_pro.GdnpOption.Roundtrip.{with_text}
use ietf_anima_signaling_pro.Content.{Content, content_eq, assign}
use ietf_anima_signaling_pro.Session.{Session, session_end, processing, new_session, queue_push}
use ietf_anima_signaling_pro.Session.Run.{
  Asa, handling, begin, reply, option_type_is_synchronization,
}
use ietf_anima_signaling_pro.Session.Run.States.{final}
use ietf_anima_signaling_pro.Session.Run.First.{begin-request}
use ietf_anima_signaling_pro.Session.Run.Verdict.{reply-verdict}
use ietf_anima_signaling_pro.Client.{Client, off}
use ietf_anima_signaling_pro.Negotiation.{Incoming, Talk, is_accept}
use ietf_anima_signaling_pro.Negotiation.Course.{ended}
use ietf_anima_signaling_pro.Negotiation.Course.Start.{is_broadcast, negotiate, nego_thread}
use ietf_anima_signaling_pro.Negotiation.Begun.{negotiate-IsBegun}
use ietf_anima_signaling_pro.Negotiation.AtOnce.{nego_thread-accepted}

-- The request of a client, and what its reader makes of it.
abbrev pub request_of : ℕ → Client → Msg
request_of sent c = encoded sent request_msg c.session_id c.buffer_nego_obj max_string_length

abbrev pub request_content : Client → Content
request_content c = record { type = request_msg; body = c.buffer_nego_obj }

pub request_of-Carries :
    (e : Endian) (sent : ℕ) (c : Client)
    → sent < 2 ^ 32
    → c.session_id ≤ max_session_id
    → length c.buffer_nego_obj ≡ max_string_length
    → Carries e (request_of sent c) request_msg c.session_id c.buffer_nego_obj
unfolding zeros
request_of-Carries e sent c small in_range full =
    subst
      (λ n.
        Carries e (encoded sent request_msg c.session_id c.buffer_nego_obj n) request_msg
          c.session_id c.buffer_nego_obj)
      full
      (subst
        (λ b.
          Carries e
            (encoded sent request_msg c.session_id c.buffer_nego_obj (length c.buffer_nego_obj))
            request_msg c.session_id b)
        (ap (λ n. c.buffer_nego_obj ++ zeros (1000 - n)) full ∙ append-nil c.buffer_nego_obj)
        (encoded-Carries e sent request_msg c.session_id c.buffer_nego_obj small in_range
          (omega (arith, full))))

-- The thread of the client `c`: it writes its first message whole, and reads `m` first.
abbrev pub running :
    Endian → ℕ → Talk → List (ℕ × Written) → Incoming → List Incoming → List ℕ → Msg → Client → Talk
running e sent t ws i is pad m c = record t {
  client = c;
  writes = (sent, wrote sizeof_msg) ∷ ws;
  reads = record i { reading = got (msg_bytes e pad m) } ∷ is;
}

-- The session with the request in hand.
abbrev taken : ℕ → Client → Session
taken fd c = record {
  tcp_sock = some fd;
  session_id = c.session_id;
  queue = [];
  cur_state = processing;
  idle_check = 1;
}

not_synchronization : option_type_is_synchronization negotiation ≡ false
unfolding option_type_is_synchronization
not_synchronization = refl

-- A client that is OFF and whose address is not that of the broadcast negotiates a text of 1 to 994
-- bytes, and `negotiate` returns SUCCESS. Its thread sends one message, the request; who reads it
-- is given a REQUEST_MSG of the client's session id with the client's buffer. The session that
-- this content starts, over an open socket, and with a last content that has a value which neither
-- equals the request nor is too short for its copy, puts the client's option to its agent: the
-- text, the loop count 5 and the flag 0, where the byte after the text in the block of `malloc` is
-- 0. If the agent accepts the value, the session sends one NEGO_END_MSG and has ended, and the
-- client's thread that reads it comes back with SUCCESS, over a connection that is set up at once
-- and takes messages whole. Both ends hold the negotiation for successful, but what the client
-- gives to `do_configuration` is not the text: it is the value that its last options held before.
pub negotiate-accepted :
    {Ip : Type 0} (inet_ntop : Ip → List ℕ) (e : Endian) (client server : Asa)
    (nego_addr : SockAddr Ip) (broadcast ip : Ip) (more : List (Converted Ip))
    (u r chunk chunk' after pad : List ℕ) (random sent random' fd fd' : ℕ) (c c' : Client)
    (t : Talk) (ws : List (ℕ × Written)) (i : Incoming) (is : List Incoming)
    (garbage kept : Content) (last : ObjectiveOption)
    → is_broadcast inet_ntop nego_addr broadcast ≡ some false
    → IsText u
    → 0 < length u
    → length u ≤ 994
    → length c.buffer_nego_obj ≡ max_string_length
    → length u ≤ length chunk
    → drop (length u) chunk ≡ 0 ∷ after
    → sent < 2 ^ 32
    → random' < 2 ^ 32
    → negotiate inet_ntop e nego_addr broadcast
        (u ++ 0 ∷ r)
        random
        true
        (record c { cur_states = off })
      ≡ some (success, c')
    → content_eq (request_content c') garbage ≡ some false
    → assign garbage (request_content c') ≡ some kept
    → final server (with_text negotiation 5 0 u (0 ∷ after)) ≡ true
    → objective_parse_bits e i.last_chunk c.last_top_options ≡ some last
    → (s : Session) × (m : Msg) × (v : Talk) × Carries e
        (request_of sent c')
        request_msg
        c'.session_id
        c'.buffer_nego_obj
      × (begin e chunk chunk' (new_session (some fd') c'.session_id (request_content c')) garbage
          ≡ some (handling s (with_text negotiation 5 0 u (0 ∷ after)), kept))
      × (reply e server random' (wrote sizeof_msg) s (with_text negotiation 5 0 u (0 ∷ after))
          ≡ some (record {
            session = record s { cur_state = session_end };
            code = success;
            handed = some m;
            end_thread = false;
          }))
      × (nego_thread e client (some fd) (converted ip ∷ more) (running e sent t ws i is pad m c')
          ≡ ended success v)
      × (v.handed ≡ request_of sent c' ∷ t.handed)
      × (v.configured ≡ get_value last.base ∷ t.configured)
unfolding new_session queue_push is_accept get_value
negotiate-accepted inet_ntop e client server nego_addr broadcast ip more u r chunk chunk' after pad
      random sent random' fd fd' c c' t ws i is garbage kept last other text pos short size room end
      small small' done fresh copied accepts before =
    let b =
      negotiate-IsBegun inet_ntop e nego_addr broadcast u r chunk random c c' other text pos short
        size room done in
    let (m, content, replied, carried, whole, first, second) =
      reply-verdict e server random' (taken fd' c') fd' (with_text negotiation 5 0 u (0 ∷ after))
        small' refl b.in_range not_synchronization accepts in
    let (v, ends, configured, stored, handed) =
      nego_thread-accepted e client fd sent ip more (running e sent t ws i is pad m c') c' ws
        (record i { reading = got (msg_bytes e pad m) }) is content 1001 _ _ last b.in_range
        (λ h. absurd (omega (arith, h, b.rounds))) refl refl b.full whole (carried fd pad i.stale)
        (first i.option_chunk) refl (second i.objective_chunk)
        (ap (objective_parse_bits e i.last_chunk) b.stored ∙ before) in
    (
      taken fd' c',
      m,
      v,
      request_of-Carries e sent c' small b.in_range b.full,
      begin-request e chunk chunk' (new_session (some fd') c'.session_id (request_content c'))
          (request_content c') garbage kept [] (with_text negotiation 5 0 u (0 ∷ after)) (length u)
          refl refl refl fresh copied
          (b.parsed ∙ ap (λ x. some (with_text negotiation 5 0 u x)) end)
          (strlen_text u after text),
      replied,
      ap
            (λ x.
              nego_thread e client (some fd) (converted ip ∷ more)
                (running e sent t ws i is pad m x))
            b.is_off
          ∙ ends,
      handed,
      configured,
    )
