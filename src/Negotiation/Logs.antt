-- ===== src/Negotiation/Logs.antt =====
-- What the handling of one message hands to the socket.
use ietf_anima_signaling_pro.Base.{
  zeros, memcpy, subst, ◌>>=◌, if◌then◌else◌, ℕ, ◌≡◌, refl, sym, ◌⊎◌, inl, inr, Endian, List, [],
  ◌∷◌, Option, none, some, Bool, true, false,
}
use ietf_anima_signaling_pro.Errno.{Errno, is_success}
use ietf_anima_signaling_pro.Msg.{MsgType, Msg, nego_msg, nego_end_msg, wait_msg, max_string_length}
use ietf_anima_signaling_pro.Msg.Codec.{type_of_msg}
use ietf_anima_signaling_pro.Pdu.{Written, Sending}
use ietf_anima_signaling_pro.Pdu.Types.{write_pdu-type}
use ietf_anima_signaling_pro.Session.Run.{Asa}
use ietf_anima_signaling_pro.Client.{negoing, log}
use ietf_anima_signaling_pro.Negotiation.{
  configure, is_accept, get_value, first_byte, is_waiting_time, decline, accept,
  option_len_except_value, after_offer, to_bits, offer_bytes, unread, remember_first,
  objective_parse_bits, ObjectiveOption, OptionType, send_decision, parse_bits, GdnpOption,
  send_offer, with_client, Incoming, Talk, Handled, ends, reads_on, starved, broken_off, sent_then,
  write_next, defined, handle, do_negotiate,
}

-- Nothing or one message of the type `type` was put in front of `before`.
abbrev pub Logged : MsgType → List Msg → List Msg → Type 0
Logged type before after =
    (after ≡ before) ⊎ ((m : Msg) × (after ≡ m ∷ before) × (type_of_msg m ≡ some type))

-- What the handling of one message may put in front of `before`.
abbrev pub Onto : List Msg → Handled → Type 0
Onto before (ends code u) = Logged nego_msg before u.handed ⊎ Logged nego_end_msg before u.handed
Onto before (reads_on b u) = Logged nego_msg before u.handed
Onto before starved = Unit {0}
Onto before broken_off = Unit {0}

log-Logged :
    (o : Option Msg) (before : List Msg) (type : MsgType)
    → ((m : Msg) → o ≡ some m → type_of_msg m ≡ some type)
    → Logged type before (log o before)
log-Logged none before type f = inl refl
log-Logged (some m) before type f = inr (m, refl, f m refl)

sent_then-Onto :
    (o : Option Sending) (t : Talk) (rest : List (ℕ × Written)) (type : MsgType)
    (k : Errno → Talk → Handled)
    → ((s : Sending) (m : Msg) → o ≡ some s → s.handed ≡ some m → type_of_msg m ≡ some type)
    → ((code : Errno) (u : Talk) → Logged type t.handed u.handed → Onto t.handed (k code u))
    → Onto t.handed (sent_then o t rest k)
sent_then-Onto none t rest type k f g = tt
sent_then-Onto (some s) t rest type k f g =
    g s.code _ (log-Logged s.handed t.handed type (λ m h. f s m refl h))

write_next-Onto :
    (ws : List (ℕ × Written)) (t : Talk) (bytes : List ℕ) (n : ℕ) (type : MsgType)
    (k : Errno → Talk → Handled)
    → ((code : Errno) (u : Talk) → Logged type t.handed u.handed → Onto t.handed (k code u))
    → Onto t.handed (write_next ws t bytes n type k)
write_next-Onto [] t bytes n type k g = tt
write_next-Onto ((random, w) ∷ rest) t bytes n type k g =
    sent_then-Onto _ t rest type k
      (λ s m h h'.
        write_pdu-type t.client.tcp_sock random w bytes n type t.client.session_id s m h h')
      g

defined-Onto :
    {A : Type 0} (before : List Msg) (o : Option A) (k : A → Handled)
    → ((a : A) → Onto before (k a))
    → Onto before (defined o k)
defined-Onto before none k f = tt
defined-Onto before (some a) k f = f a

if-Onto :
    (before : List Msg) (b : Bool) (h h' : Handled)
    → Onto before h
    → Onto before h'
    → Onto before (if b then h else h')
if-Onto before true h h' p q = p
if-Onto before false h h' p q = q

stored-Onto :
    (before : List Msg) (o : Option (List ℕ)) (u : Talk) (code : Errno)
    → Logged nego_msg before u.handed
    → Onto before (
        defined
          (o >>= λ block. some (with_client u (record u.client { last_top_options = block })))
          (λ v. if is_success code then reads_on unread v else ends code v))
stored-Onto before none u code l = tt
stored-Onto before (some block) u code l = if-Onto before (is_success code) _ _ l (inl l)

send_offer-Onto :
    (e : Endian) (i : Incoming) (t : Talk) (answer : List ℕ)
    → Onto t.handed (send_offer e i t answer)
unfolding send_offer remember_first
send_offer-Onto e i t answer =
    defined-Onto t.handed (offer_bytes e t.client answer i.send_buffer) _ (λ bytes.
      write_next-Onto t.writes t bytes max_string_length nego_msg (after_offer bytes) (λ code u l.
        stored-Onto t.handed (memcpy (zeros max_string_length) bytes max_string_length) u code l))

send_decision-Onto :
    (e : Endian) (t : Talk) (type : OptionType) (k : Talk → Talk)
    → ((u : Talk) → (k u).handed ≡ u.handed)
    → Onto t.handed (send_decision e t type k)
unfolding send_decision
send_decision-Onto e t type k kept =
    defined-Onto t.handed (to_bits e (record { type = type; len = 0; value = none })) _ (λ bits.
      write_next-Onto t.writes t bits option_len_except_value nego_end_msg _
        (λ code u l. inr (subst (Logged nego_end_msg t.handed) (sym (kept u)) l)))

nego-Onto :
    (e : Endian) (i : Incoming) (t : Talk) (value answer : List ℕ) (taken over : Bool)
    → Onto t.handed (
        if taken
        then send_decision e t accept (configure value)
        else if over
        then send_decision e t decline (λ u. u)
        else send_offer e i t answer)
nego-Onto e i t value answer true over = send_decision-Onto e t accept _ (λ u. refl)
nego-Onto e i t value answer false true = send_decision-Onto e t decline _ (λ u. refl)
nego-Onto e i t value answer false false = send_offer-Onto e i t answer

handle-Onto :
    (e : Endian) (asa : Asa) (i : Incoming) (t : Talk) (o : GdnpOption) (oo : ObjectiveOption)
    (type : MsgType)
    → Onto t.handed (handle e asa i t o oo type)
unfolding handle
handle-Onto e asa i t o oo nego_msg =
    nego-Onto e i (with_client t (record t.client { cur_states = negoing })) (get_value oo.base) _ _
      _
handle-Onto e asa i t o oo wait_msg =
    if-Onto t.handed (is_waiting_time o.type) _ _
      (defined-Onto t.handed (first_byte (get_value o)) _ (λ seconds. inl refl)) (inl (inl refl))
handle-Onto e asa i t o oo nego_end_msg =
    if-Onto t.handed (is_accept o.type) _ _
      (defined-Onto t.handed (objective_parse_bits e i.last_chunk t.client.last_top_options) _
        (λ last. inl (inl refl)))
      (inl (inl refl))
handle-Onto e asa i t o oo _ = inl (inl refl)

pub do_negotiate-Onto :
    (e : Endian) (asa : Asa) (i : Incoming) (t : Talk) (type : MsgType)
    → Onto t.handed (do_negotiate e asa i t type)
unfolding do_negotiate
do_negotiate-Onto e asa i t type =
    defined-Onto t.handed (parse_bits e i.option_chunk t.buffer) _ (λ o.
      defined-Onto t.handed (objective_parse_bits e i.objective_chunk t.buffer) _
        (λ oo. handle-Onto e asa i _ o oo type))
