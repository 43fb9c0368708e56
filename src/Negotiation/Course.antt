-- ===== src/Negotiation/Course.antt =====
-- Client_TCP.cpp: the reads between two messages, and the functions that start a negotiation.
pub mod Start
pub mod Order
pub mod Ending
use ietf_anima_signaling_pro.Base.{
  ◌>>=◌, ℕ, ◌==◌, if◌then◌else◌, Endian, List, [], ◌∷◌, zeros, Option, none, some, Bool, true,
  false,
}
use ietf_anima_signaling_pro.Errno.{Errno, Outcome, ok, err, fault, msg_type_err}
use ietf_anima_signaling_pro.Msg.{MsgType, Decoded, max_string_length}
use ietf_anima_signaling_pro.Pdu.{read_pdu}
use ietf_anima_signaling_pro.Session.Run.{Asa}
use ietf_anima_signaling_pro.Client.{Client}
use ietf_anima_signaling_pro.Negotiation.{
  Incoming, Talk, Awaiting, unread, after_wait_msg, other_session, Handled, ends, reads_on, starved,
  broken_off, with_client, do_negotiate,
}

-- How a negotiation goes: it comes back with a code, the scripts are at their end, or it does what
-- C leaves undefined.
pub data Course : Type 0 where
  ended : Errno → Talk → Course
  pending : Course
  undefined : Course

-- Whether a WAIT_MSG was handled before the read.
abbrev pub has_waited : Awaiting → Bool
has_waited unread = false
has_waited after_wait_msg = true
has_waited (other_session b) = b

-- `read_pdu` has cleared the buffer by the time that `decode` refuses a type.
abbrev pub after_failure : Errno → Talk → Talk
after_failure msg_type_err t = record t { buffer = zeros max_string_length }
after_failure _ t = t

-- The ten seconds are set again when the message after a WAIT_MSG has come.
abbrev pub reset_timeout : Bool → Talk → Talk
reset_timeout true t = with_client t (record t.client { recv_timeout = 10 })
reset_timeout false t = t

-- After `do_negotiate`; `k` is what follows a read.
abbrev pub after_handling : List Incoming → (Awaiting → Talk → Course) → Handled → Course
after_handling rest k (ends code u) = ended code (record u { reads = rest })
after_handling rest k (reads_on b u) = k b u
after_handling rest k starved = pending
after_handling rest k broken_off = undefined

-- A message has come: `do_negotiate` if it is of the client's session.
abbrev pub after_message :
    Endian
    → Asa
    → Incoming
    → List Incoming
    → (Awaiting → Talk → Course)
    → Awaiting
    → Talk
    → Decoded
    → Course
after_message e asa i rest k a t d =
    let heard = record t { buffer = d.content } in
    if d.session_id == t.client.session_id
    then after_handling rest k (do_negotiate e asa i (reset_timeout (has_waited a) heard) d.type)
    else k (other_session (has_waited a)) heard

-- After `read_pdu`. A failed read leaves the session id that the loop compares as it was: without a
-- value, or with that of another session.
abbrev pub after_read :
    Endian
    → Asa
    → Incoming
    → List Incoming
    → (Awaiting → Talk → Course)
    → Awaiting
    → Talk
    → Outcome Decoded
    → Course
after_read e asa i rest k a t fault = undefined
after_read e asa i rest k unread t (err code) = undefined
after_read e asa i rest k after_wait_msg t (err code) =
    ended code (record (after_failure code t) { reads = rest })
after_read e asa i rest k (other_session b) t (err code) =
    k (other_session b) (after_failure code t)
after_read e asa i rest k a t (ok d) = after_message e asa i rest k a t d

-- The reads in `send_negotiate` and in `do_negotiate`, with `do_negotiate` on each message of the
-- client's session.
unfoldable pub converse : Endian → Asa → Awaiting → Talk → List Incoming → Course
converse e asa a t [] = pending
converse e asa a t (i ∷ rest) =
    after_read e asa i rest (λ b u. converse e asa b u rest) a t
      (read_pdu e t.client.tcp_sock i.reading i.stale)
