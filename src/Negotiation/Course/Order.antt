-- ===== src/Negotiation/Course/Order.antt =====
-- What a client hands to its socket once the REQUEST_MSG is sent.
use ietf_anima_signaling_pro.Negotiation.Logs.{Onto, do_negotiate-Onto}
use ietf_anima_signaling_pro.Base.{
  subst, ◌==◌, ◌≡◌, refl, ◌∙◌, ◌⊎◌, inl, inr, Endian, List, [], ◌∷◌, ◌++◌, some, Bool, true, false,
  Bool-cases,
}
use ietf_anima_signaling_pro.Errno.{msg_type_err, Outcome, Errno, ok, err, fault}
use ietf_anima_signaling_pro.Msg.{Decoded, Msg, nego_msg, nego_end_msg}
use ietf_anima_signaling_pro.Msg.Codec.{type_of_msg}
use ietf_anima_signaling_pro.Session.Run.{Asa}
use ietf_anima_signaling_pro.Negotiation.Course.{
  has_waited, after_read, after_message, after_failure, reset_timeout, after_handling, Course,
  ended, pending, undefined, converse,
}
use ietf_anima_signaling_pro.Negotiation.{
  other_session, unread, Incoming, Talk, Awaiting, after_wait_msg, Handled, ends, reads_on, starved,
  broken_off, do_negotiate,
}

-- NEGO_MSGs only.
abbrev pub OnlyNego : List Msg → Type 0
OnlyNego [] = Unit {0}
OnlyNego (m ∷ ms) = (type_of_msg m ≡ some nego_msg) × OnlyNego ms

-- NEGO_MSGs, of which the newest may be a NEGO_END_MSG instead.
abbrev pub Outgoing : List Msg → Type 0
Outgoing [] = Unit {0}
Outgoing (m ∷ ms) =
    ((type_of_msg m ≡ some nego_msg) ⊎ (type_of_msg m ≡ some nego_end_msg)) × OnlyNego ms

OnlyNego-Outgoing : (ms : List Msg) → OnlyNego ms → Outgoing ms
OnlyNego-Outgoing [] p = tt
OnlyNego-Outgoing (m ∷ ms) p = (inl p.0, p.1)

-- What a course may put in front of `before`.
abbrev pub Runs : List Msg → Course → Type 0
Runs before (ended code u) = (new : List Msg) × (u.handed ≡ new ++ before) × Outgoing new
Runs before pending = Unit {0}
Runs before undefined = Unit {0}

after_handling-Runs :
    (before old : List Msg) (rest : List Incoming) (k : Awaiting → Talk → Course) (h : Handled)
    → OnlyNego old
    → ((b : Awaiting) (u : Talk) (new : List Msg)
        → u.handed ≡ new ++ before
        → OnlyNego new
        → Runs before (k b u))
    → Onto (old ++ before) h
    → Runs before (after_handling rest k h)
after_handling-Runs before old rest k (ends code u) nego f (inl (inl same)) =
    (old, same, OnlyNego-Outgoing old nego)
after_handling-Runs before old rest k (ends code u) nego f (inr (inl same)) =
    (old, same, OnlyNego-Outgoing old nego)
after_handling-Runs before old rest k (ends code u) nego f (inl (inr (m, same, type))) =
    (m ∷ old, same, (inl type, nego))
after_handling-Runs before old rest k (ends code u) nego f (inr (inr (m, same, type))) =
    (m ∷ old, same, (inr type, nego))
after_handling-Runs before old rest k (reads_on b u) nego f (inl same) = f b u old same nego
after_handling-Runs before old rest k (reads_on b u) nego f (inr (m, same, type)) =
    f b u (m ∷ old) same (type, nego)
after_handling-Runs before old rest k starved nego f l = tt
after_handling-Runs before old rest k broken_off nego f l = tt

after_failure-handed : (code : Errno) (t : Talk) → (after_failure code t).handed ≡ t.handed
after_failure-handed msg_type_err t = refl
after_failure-handed _ t = refl

reset_timeout-handed : (b : Bool) (t : Talk) → (reset_timeout b t).handed ≡ t.handed
reset_timeout-handed true t = refl
reset_timeout-handed false t = refl

module _ (e : Endian) (asa : Asa) (before : List Msg) (i : Incoming) (rest : List Incoming)
    (k : Awaiting → Talk → Course)
    (f : (b : Awaiting) (u : Talk) (new : List Msg)
      → u.handed ≡ new ++ before
      → OnlyNego new
      → Runs before (k b u))
    (t : Talk) (old : List Msg) (same : t.handed ≡ old ++ before) (nego : OnlyNego old) where
  after_message-Runs :
      (a : Awaiting) (d : Decoded) → Runs before (after_message e asa i rest k a t d)
  after_message-Runs a d = elim (Bool-cases (d.session_id == t.client.session_id)) [
    | inl own ↦ rw own (
        after_handling-Runs before old rest k _ nego f (
          subst
            (λ h. Onto h (
              do_negotiate e asa i (reset_timeout (has_waited a) (record t { buffer = d.content }))
                d.type))
            (reset_timeout-handed (has_waited a) (record t { buffer = d.content }) ∙ same)
            (do_negotiate-Onto e asa i
              (reset_timeout (has_waited a) (record t { buffer = d.content })) d.type)))
    | inr other ↦ rw other (f (other_session (has_waited a)) _ old same nego)
  ]

  after_read-Runs :
      (a : Awaiting) (o : Outcome Decoded) → Runs before (after_read e asa i rest k a t o)
  after_read-Runs a fault = tt
  after_read-Runs unread (err code) = tt
  after_read-Runs after_wait_msg (err code) =
      (old, after_failure-handed code t ∙ same, OnlyNego-Outgoing old nego)
  after_read-Runs (other_session b) (err code) =
      f (other_session b) (after_failure code t) old (after_failure-handed code t ∙ same) nego
  after_read-Runs unread (ok d) = after_message-Runs unread d
  after_read-Runs after_wait_msg (ok d) = after_message-Runs after_wait_msg d
  after_read-Runs (other_session b) (ok d) = after_message-Runs (other_session b) d

converse-Runs :
    (e : Endian) (asa : Asa) (before : List Msg) (is : List Incoming) (a : Awaiting) (t : Talk)
    (old : List Msg)
    → t.handed ≡ old ++ before
    → OnlyNego old
    → Runs before (converse e asa a t is)
unfolding converse
converse-Runs e asa before [] a t old same nego = tt
converse-Runs e asa before (i ∷ rest) a t old same nego =
    after_read-Runs e asa before i rest _
      (λ b u new same' nego'. converse-Runs e asa before rest b u new same' nego') t old same nego a
      _

-- Whatever the agent decides and whatever is read or fails, a client that has sent its request and
-- comes back has handed to the system only NEGO_MSGs and NEGO_END_MSGs since, and if there was a
-- NEGO_END_MSG, then one, as the last message.
pub converse-Outgoing :
    (e : Endian) (asa : Asa) (is : List Incoming) (a : Awaiting) (t u : Talk) (code : Errno)
    → converse e asa a t is ≡ ended code u
    → (new : List Msg) × (u.handed ≡ new ++ t.handed) × Outgoing new
converse-Outgoing e asa is a t u code h =
    subst (Runs t.handed) h (converse-Runs e asa t.handed is a t [] refl tt)
