-- ===== src/Negotiation/Heard.antt =====
-- `synchronize` of a client that is connected, and a NEGO_END_MSG that it reads.
use ietf_anima_signaling_pro.Base.{
  Bool, none, Option-cases, inl, inr, if◌then◌else◌, ℕ, ◌≤◌, ◌≡◌, ◌≢◌, refl, ap, ◌∙◌, Endian, List,
  ◌∷◌, length, some, true, false,
}
use ietf_anima_signaling_pro.Errno.{success, ok}
use ietf_anima_signaling_pro.Msg.{
  MsgType, request_msg, nego_end_msg, max_session_id, max_string_length,
}
use ietf_anima_signaling_pro.Msg.Codec.{encoded}
use ietf_anima_signaling_pro.Pdu.{Descriptor, Written, wrote, sizeof_msg, read_pdu}
use ietf_anima_signaling_pro.Pdu.Sockets.{Converted, converted, client_tcp_init}
use ietf_anima_signaling_pro.GdnpOption.{
  GdnpOption, ObjectiveOption, get_value, parse_bits, objective_parse_bits,
}
use ietf_anima_signaling_pro.Session.Run.{Asa}
use ietf_anima_signaling_pro.Client.{Client, off}
use ietf_anima_signaling_pro.Negotiation.{
  do_negotiate, broken_off, Incoming, Talk, with_client, configure, is_accept,
}
use ietf_anima_signaling_pro.Negotiation.Offer.{remember_first-whole}
use ietf_anima_signaling_pro.Negotiation.Course.{ended, undefined}
use ietf_anima_signaling_pro.Negotiation.Course.Ending.{
  requested, told, send_request-told, send_request-handled,
}
use ietf_anima_signaling_pro.Negotiation.Course.Start.{
  set_up_tcp, tcp_init, known, and_then, send_request, send_negotiate, send_tcp, store_on_success,
  conclude, synchronize_with,
}

pub set_up_tcp-connected :
    {Ip : Type 0} (fd : ℕ) (ip : Ip) (more : List (Converted Ip)) (c : Client)
    → set_up_tcp (some fd) (converted ip ∷ more) c ≡ some (true, record c { tcp_sock = some fd })
unfolding set_up_tcp tcp_init client_tcp_init
set_up_tcp-connected fd ip more c = refl

conclude-known :
    (e : Endian) (chunk : List ℕ) (u : Talk) (v : ObjectiveOption) (room : Bool)
    → objective_parse_bits e chunk u.buffer ≡ (if room then some v else none)
    → conclude e chunk success u ≡ (
        if room
        then ended success
            (configure (get_value v.base) (with_client u (record u.client { cur_states = off })))
        else undefined)
unfolding conclude
conclude-known e chunk u v true h = rw (conclude, h) refl
conclude-known e chunk u v false h = rw (conclude, h) refl

-- A message that one of the two parsers of `do_negotiate` does not take.
pub do_negotiate-no_option :
    (e : Endian) (asa : Asa) (i : Incoming) (t : Talk) (type : MsgType)
    → parse_bits e i.option_chunk t.buffer ≡ none
    → do_negotiate e asa i t type ≡ broken_off
unfolding do_negotiate
do_negotiate-no_option e asa i t type h = rw h refl

pub do_negotiate-no_objective :
    (e : Endian) (asa : Asa) (i : Incoming) (t : Talk) (type : MsgType)
    → objective_parse_bits e i.objective_chunk t.buffer ≡ none
    → do_negotiate e asa i t type ≡ broken_off
unfolding do_negotiate
do_negotiate-no_objective e asa i t type h =
    elim (Option-cases (parse_bits e i.option_chunk t.buffer)) [
      | inl missing ↦ rw missing refl
      | inr (o, found) ↦ rw (found, h) refl
    ]

pub send_negotiate-connected :
    {Ip : Type 0} (e : Endian) (asa : Asa) (sock : Descriptor) (conversions : List (Converted Ip))
    (t : Talk) (c c' : Client)
    → set_up_tcp sock conversions c ≡ some (true, c')
    → send_negotiate e asa sock conversions (with_client t c) max_string_length request_msg
      ≡ send_request e asa (with_client t (record c' { recv_timeout = 10 })) max_string_length
unfolding send_negotiate
send_negotiate-connected e asa sock conversions t c c' h = rw (send_negotiate, h) refl

-- The client once its socket is there.
abbrev pub connected : ℕ → Client → Client
connected fd c = record c { cur_states = off; tcp_sock = some fd; recv_timeout = 10 }

module _ {Ip : Type 0} (e : Endian) (asa : Asa) (chunk : List ℕ) (fd random : ℕ) (ip : Ip)
    (more : List (Converted Ip)) (t : Talk) (c : Client) (ws : List (ℕ × Written)) (i : Incoming)
    (is : List Incoming) (content : List ℕ) (size : ℕ) (o : GdnpOption)
    (oo v : ObjectiveOption) where
  -- After the read.
  abbrev heard_end : Talk
  heard_end = record t {
    client = told oo (connected fd c);
    buffer = content;
    writes = ws;
    reads = is;
    handed = encoded random request_msg c.session_id t.buffer max_string_length ∷ t.handed;
  }

  -- What `synchronize` leaves.
  abbrev pub synchronized : Talk
  synchronized = record t {
    client = record (told oo (connected fd c)) { last_top_options = content };
    buffer = content;
    writes = ws;
    reads = is;
    handed = encoded random request_msg c.session_id t.buffer max_string_length ∷ t.handed;
    configured = get_value v.base ∷ t.configured;
  }

  pub synchronize_with-answered :
      c.session_id ≤ max_session_id
      → c.loop_count ≢ 0
      → t.writes ≡ (random, wrote sizeof_msg) ∷ ws
      → t.reads ≡ i ∷ is
      → length t.buffer ≡ max_string_length
      → length content ≡ max_string_length
      → read_pdu e (some fd) i.reading i.stale
        ≡ ok (record {
          type = nego_end_msg;
          session_id = c.session_id;
          content = content;
          data_size = size;
        })
      → parse_bits e i.option_chunk content ≡ some o
      → is_accept o.type ≡ false
      → objective_parse_bits e i.objective_chunk content ≡ some oo
      → (room : Bool) → objective_parse_bits e chunk content ≡ (if room then some v else none)
      → synchronize_with e asa chunk
          (some fd)
          (converted ip ∷ more)
          (with_client t (record c { cur_states = off }))
        ≡ (if room then ended success synchronized else undefined)
  unfolding synchronize_with send_tcp store_on_success conclude
  synchronize_with-answered in_range loops writes reads full whole came first kind second room
        third =
      (ap (λ x. and_then (and_then x (store_on_success max_string_length)) (conclude e chunk))
          (send_negotiate-connected e asa (some fd) (converted ip ∷ more) t
              (record c { cur_states = off }) (record c { cur_states = off; tcp_sock = some fd })
              (set_up_tcp-connected fd ip more (record c { cur_states = off }))
            ∙ send_request-told e asa i is (with_client t (connected fd c)) fd random ws content
                size o oo refl in_range loops writes reads full came first kind second)
        ∙ ap (λ x. and_then (known x (ended success)) (conclude e chunk))
            (remember_first-whole content heard_end whole)
        ∙ conclude-known e chunk
            (with_client heard_end (record heard_end.client { last_top_options = content })) v room
            third)

  -- The reply cannot be parsed in `do_negotiate`.
  pub synchronize_with-unread :
      c.session_id ≤ max_session_id
      → c.loop_count ≢ 0
      → t.writes ≡ (random, wrote sizeof_msg) ∷ ws
      → t.reads ≡ i ∷ is
      → length t.buffer ≡ max_string_length
      → read_pdu e (some fd) i.reading i.stale
        ≡ ok (record {
          type = nego_end_msg;
          session_id = c.session_id;
          content = content;
          data_size = size;
        })
      → do_negotiate e asa i
          (record (requested random ws (with_client t (connected fd c))) { buffer = content })
          nego_end_msg
        ≡ broken_off
      → synchronize_with e asa chunk
          (some fd)
          (converted ip ∷ more)
          (with_client t (record c { cur_states = off }))
        ≡ undefined
  unfolding synchronize_with send_tcp store_on_success conclude
  synchronize_with-unread in_range loops writes reads full came broken =
      ap (λ x. and_then (and_then x (store_on_success max_string_length)) (conclude e chunk))
        (send_negotiate-connected e asa (some fd) (converted ip ∷ more) t
            (record c { cur_states = off }) (record c { cur_states = off; tcp_sock = some fd })
            (set_up_tcp-connected fd ip more (record c { cur_states = off }))
          ∙ send_request-handled e asa i is (with_client t (connected fd c)) broken_off fd random ws
              content size refl in_range loops writes reads full came broken)
