-- ===== src/Negotiation/Course/Ending.antt =====
-- Client_TCP.cpp: a request that is answered by the end of the negotiation.
use ietf_anima_signaling_pro.Base.{
  ◌==◌, ℕ, ◌+◌, ◌-◌, ◌^◌, ◌≤◌, ◌≡◌, ◌≢◌, refl, ap, ◌∙◌, u32, Endian, List, ◌∷◌, length, some, true,
  false, arith,
}
use ietf_anima_signaling_pro.Errno.{success, ok}
use ietf_anima_signaling_pro.Msg.{
  MsgType, request_msg, nego_end_msg, max_session_id, max_string_length,
}
use ietf_anima_signaling_pro.Msg.Codec.{encoded}
use ietf_anima_signaling_pro.Pdu.{Written, wrote, sizeof_msg, read_pdu}
use ietf_anima_signaling_pro.GdnpOption.{
  get_value, GdnpOption, ObjectiveOption, parse_bits, objective_parse_bits,
}
use ietf_anima_signaling_pro.Session.Run.{Asa}
use ietf_anima_signaling_pro.Client.{Client}
use ietf_anima_signaling_pro.Negotiation.Writes.{write_pdu-whole}
use ietf_anima_signaling_pro.Negotiation.{
  Handled, configure, Incoming, Talk, unread, ends, with_client, handle, is_accept, do_negotiate,
}
use ietf_anima_signaling_pro.Negotiation.Course.{ended, after_read, after_handling, converse}
use ietf_anima_signaling_pro.Negotiation.Course.Start.{
  decremented, known, after_request, send_request,
}

-- The client after a message with the objective option `oo` that is not answered.
abbrev pub told : ObjectiveOption → Client → Client
told oo c = record c { loop_count = u32 (oo.loop_count + 2 ^ 32 - 1); flag = oo.flag }

pub do_negotiate-told :
    (e : Endian) (asa : Asa) (i : Incoming) (t : Talk) (o : GdnpOption) (oo : ObjectiveOption)
    → parse_bits e i.option_chunk t.buffer ≡ some o
    → is_accept o.type ≡ false
    → objective_parse_bits e i.objective_chunk t.buffer ≡ some oo
    → do_negotiate e asa i t nego_end_msg ≡ ends success (with_client t (told oo t.client))
unfolding do_negotiate handle
do_negotiate-told e asa i t o oo first kind second = rw (first, second) (rw kind refl)

-- An `Accept`: the value of the options that were stored last is taken.
pub do_negotiate-accepted :
    (e : Endian) (asa : Asa) (i : Incoming) (t : Talk) (o : GdnpOption) (oo last : ObjectiveOption)
    → parse_bits e i.option_chunk t.buffer ≡ some o
    → is_accept o.type ≡ true
    → objective_parse_bits e i.objective_chunk t.buffer ≡ some oo
    → objective_parse_bits e i.last_chunk t.client.last_top_options ≡ some last
    → do_negotiate e asa i t nego_end_msg
      ≡ ends success (configure (get_value last.base) (with_client t (told oo t.client)))
unfolding do_negotiate handle
do_negotiate-accepted e asa i t o oo last first kind second third =
    rw (first, second) (rw (kind, third) refl)

own : (n : ℕ) → (n == n) ≡ true
own n = ground arith

not_zero : (n : ℕ) → n ≢ 0 → (n == 0) ≡ false
not_zero n h = ground (arith, h)

converse-handled :
    (e : Endian) (asa : Asa) (i : Incoming) (is : List Incoming) (t : Talk) (h : Handled)
    (content : List ℕ) (size : ℕ) (type : MsgType)
    → read_pdu e t.client.tcp_sock i.reading i.stale
      ≡ ok (record {
        type = type;
        session_id = t.client.session_id;
        content = content;
        data_size = size;
      })
    → do_negotiate e asa i (record t { buffer = content }) type ≡ h
    → converse e asa unread t (i ∷ is) ≡ after_handling is (λ b v. converse e asa b v is) h
unfolding converse
converse-handled e asa i is t h content size type came done =
    ap (after_read e asa i is (λ b v. converse e asa b v is) unread t) came
    ∙ rw (own t.client.session_id) (ap (after_handling is (λ b v. converse e asa b v is)) done)

module _ (e : Endian) (asa : Asa) (i : Incoming) (is : List Incoming) (t u : Talk)
    (content : List ℕ) (size : ℕ) (type : MsgType) where
  pub converse-ends :
      read_pdu e t.client.tcp_sock i.reading i.stale
        ≡ ok (record {
          type = type;
          session_id = t.client.session_id;
          content = content;
          data_size = size;
        })
      → do_negotiate e asa i (record t { buffer = content }) type ≡ ends success u
      → converse e asa unread t (i ∷ is) ≡ ended success (record u { reads = is })
  converse-ends = converse-handled e asa i is t (ends success u) content size type

-- After a request of the whole buffer, before the answer.
abbrev pub requested : ℕ → List (ℕ × Written) → Talk → Talk
requested random ws t = record t {
  client = decremented t.client;
  writes = ws;
  handed = encoded random request_msg t.client.session_id t.buffer max_string_length ∷ t.handed;
}

-- After the request, an answer that `do_negotiate` handles as `h` says.
pub send_request-handled :
    (e : Endian) (asa : Asa) (i : Incoming) (is : List Incoming) (t : Talk) (h : Handled)
    (fd random : ℕ) (ws : List (ℕ × Written)) (content : List ℕ) (size : ℕ)
    → t.client.tcp_sock ≡ some fd
    → t.client.session_id ≤ max_session_id
    → t.client.loop_count ≢ 0
    → t.writes ≡ (random, wrote sizeof_msg) ∷ ws
    → t.reads ≡ i ∷ is
    → length t.buffer ≡ max_string_length
    → read_pdu e (some fd) i.reading i.stale
      ≡ ok (record {
        type = nego_end_msg;
        session_id = t.client.session_id;
        content = content;
        data_size = size;
      })
    → do_negotiate e asa i (record (requested random ws t) { buffer = content }) nego_end_msg ≡ h
    → send_request e asa t max_string_length ≡ after_handling is (λ b v. converse e asa b v is) h
unfolding send_request after_request
send_request-handled e asa i is t h fd random ws content size opened in_range more writes reads full
      came done =
    let goes_on : (t.client.loop_count == 0) ≡ false = not_zero t.client.loop_count more in
    rw (send_request, goes_on, writes)
      (ap
          (λ x.
            known x (after_request e asa (record t { client = decremented t.client; writes = ws })))
          (write_pdu-whole t fd random t.buffer 1000 request_msg opened in_range (omega arith)
            (omega (arith, full)))
        ∙ ap (λ is'. converse e asa unread (requested random ws t) is') reads
        ∙ converse-handled e asa i is (requested random ws t) h content size nego_end_msg
            (ap (λ s. read_pdu e s i.reading i.stale) opened ∙ came) done)

pub send_request-ends :
    (e : Endian) (asa : Asa) (i : Incoming) (is : List Incoming) (t u : Talk) (fd random : ℕ)
    (ws : List (ℕ × Written)) (content : List ℕ) (size : ℕ)
    → t.client.tcp_sock ≡ some fd
    → t.client.session_id ≤ max_session_id
    → t.client.loop_count ≢ 0
    → t.writes ≡ (random, wrote sizeof_msg) ∷ ws
    → t.reads ≡ i ∷ is
    → length t.buffer ≡ max_string_length
    → read_pdu e (some fd) i.reading i.stale
      ≡ ok (record {
        type = nego_end_msg;
        session_id = t.client.session_id;
        content = content;
        data_size = size;
      })
    → do_negotiate e asa i (record (requested random ws t) { buffer = content }) nego_end_msg
      ≡ ends success u
    → send_request e asa t max_string_length ≡ ended success (record u { reads = is })
send_request-ends e asa i is t u fd random ws content size opened in_range more writes reads full
      came done =
    send_request-handled e asa i is t (ends success u) fd random ws content size opened in_range
      more writes reads full came done

pub send_request-told :
    (e : Endian) (asa : Asa) (i : Incoming) (is : List Incoming) (t : Talk) (fd random : ℕ)
    (ws : List (ℕ × Written)) (content : List ℕ) (size : ℕ) (o : GdnpOption) (oo : ObjectiveOption)
    → t.client.tcp_sock ≡ some fd
    → t.client.session_id ≤ max_session_id
    → t.client.loop_count ≢ 0
    → t.writes ≡ (random, wrote sizeof_msg) ∷ ws
    → t.reads ≡ i ∷ is
    → length t.buffer ≡ max_string_length
    → read_pdu e (some fd) i.reading i.stale
      ≡ ok (record {
        type = nego_end_msg;
        session_id = t.client.session_id;
        content = content;
        data_size = size;
      })
    → parse_bits e i.option_chunk content ≡ some o
    → is_accept o.type ≡ false
    → objective_parse_bits e i.objective_chunk content ≡ some oo
    → send_request e asa t max_string_length
      ≡ ended success (record (requested random ws t) {
        client = told oo t.client;
        buffer = content;
        reads = is;
      })
send_request-told e asa i is t fd random ws content size o oo opened in_range more writes reads full
      came first kind second =
    send_request-ends e asa i is t _ fd random ws content size opened in_range more writes reads
      full came
      (do_negotiate-told e asa i (record (requested random ws t) { buffer = content }) o oo first
        kind second)
