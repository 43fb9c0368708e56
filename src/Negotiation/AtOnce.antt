-- ===== src/Negotiation/AtOnce.antt =====
-- Client_TCP.cpp: a negotiation whose first offer is accepted.
use ietf_anima_signaling_pro.Base.{
  ℕ, ◌≤◌, ◌≡◌, ◌≢◌, refl, ap, ◌∙◌, Endian, List, ◌∷◌, length, some, true,
}
use ietf_anima_signaling_pro.Errno.{Errno, success, ok}
use ietf_anima_signaling_pro.Msg.{request_msg, nego_end_msg, max_session_id, max_string_length}
use ietf_anima_signaling_pro.Msg.Codec.{encoded}
use ietf_anima_signaling_pro.Pdu.{Written, wrote, sizeof_msg, read_pdu}
use ietf_anima_signaling_pro.Pdu.Sockets.{Converted, converted}
use ietf_anima_signaling_pro.GdnpOption.{
  GdnpOption, ObjectiveOption, get_value, parse_bits, objective_parse_bits,
}
use ietf_anima_signaling_pro.Session.Run.{Asa}
use ietf_anima_signaling_pro.Client.{Client, off}
use ietf_anima_signaling_pro.Negotiation.{Incoming, Talk, with_client, is_accept}
use ietf_anima_signaling_pro.Negotiation.Offer.{remember_first-whole}
use ietf_anima_signaling_pro.Negotiation.Heard.{
  connected, set_up_tcp-connected, send_negotiate-connected,
}
use ietf_anima_signaling_pro.Negotiation.Course.{Course, ended}
use ietf_anima_signaling_pro.Negotiation.Course.Ending.{
  told, requested, do_negotiate-accepted, send_request-ends,
}
use ietf_anima_signaling_pro.Negotiation.Course.Start.{
  known, and_then, send_tcp, store_on_success, nego_thread,
}

-- What `nego_thread` does after `send_tcp`.
abbrev finish : Errno → Talk → Course
finish code u =
    ended code (with_client u (record u.client { cur_states = off; buffer_nego_obj = u.buffer }))

module _ {Ip : Type 0} (e : Endian) (asa : Asa) (fd random : ℕ) (ip : Ip)
    (more : List (Converted Ip)) (t : Talk) (c : Client) (ws : List (ℕ × Written)) (i : Incoming)
    (is : List Incoming) (content : List ℕ) (size : ℕ) (o : GdnpOption)
    (oo last : ObjectiveOption) where
  -- The client when `send_tcp` has its answer.
  abbrev accepted : Talk
  accepted =
      record (requested random ws
        (record t { client = connected fd c; buffer = c.buffer_nego_obj })) {
          client = told oo (connected fd c);
          buffer = content;
          reads = is;
          configured = get_value last.base ∷ t.configured;
        }

  -- The answer to the first REQUEST_MSG of a negotiation is a NEGO_END_MSG of the session with
  -- Accept, over a connection that is set up at once and takes the request whole, and the client
  -- was OFF with a loop count other than 0. Then the client comes back with SUCCESS, but the value
  -- that it gives to `do_configuration` is that of the options that were stored before the
  -- negotiation began, whatever it has asked for; what it stores as its last options is the answer.
  -- It has sent one message, the request.
  pub nego_thread-accepted :
      c.session_id ≤ max_session_id
      → c.loop_count ≢ 0
      → t.writes ≡ (random, wrote sizeof_msg) ∷ ws
      → t.reads ≡ i ∷ is
      → length c.buffer_nego_obj ≡ max_string_length
      → length content ≡ max_string_length
      → read_pdu e (some fd) i.reading i.stale
        ≡ ok (record {
          type = nego_end_msg;
          session_id = c.session_id;
          content = content;
          data_size = size;
        })
      → parse_bits e i.option_chunk content ≡ some o
      → is_accept o.type ≡ true
      → objective_parse_bits e i.objective_chunk content ≡ some oo
      → objective_parse_bits e i.last_chunk c.last_top_options ≡ some last
      → (v : Talk) × (nego_thread e asa
            (some fd)
            (converted ip ∷ more)
            (with_client t (record c { cur_states = off }))
          ≡ ended success v)
        × (v.configured ≡ get_value last.base ∷ t.configured)
        × (v.client.last_top_options ≡ content)
        × (v.handed
            ≡ encoded random request_msg c.session_id c.buffer_nego_obj max_string_length
              ∷ t.handed)
  unfolding nego_thread send_tcp store_on_success
  nego_thread-accepted in_range loops writes reads full whole came first kind second third = (
    _,
    ap (λ x. and_then (and_then x (store_on_success max_string_length)) finish)
          (send_negotiate-connected e asa (some fd) (converted ip ∷ more)
              (record t { buffer = c.buffer_nego_obj }) (record c { cur_states = off })
              (record c { cur_states = off; tcp_sock = some fd })
              (set_up_tcp-connected fd ip more (record c { cur_states = off }))
            ∙ send_request-ends e asa i is
                (record t { client = connected fd c; buffer = c.buffer_nego_obj })
                (record accepted { reads = t.reads }) fd random ws content size refl in_range loops
                writes reads full came
                (do_negotiate-accepted e asa i
                  (record (requested random ws
                    (record t { client = connected fd c; buffer = c.buffer_nego_obj })) {
                      buffer = content;
                    })
                  o oo last first kind second third))
        ∙ ap (λ x. and_then (known x (ended success)) finish)
            (remember_first-whole content accepted whole),
    refl,
    refl,
    refl,
  )
