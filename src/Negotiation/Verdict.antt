-- ===== src/Negotiation/Verdict.antt =====
-- Client_TCP.cpp, `do_negotiate`: the client ends a negotiation.
use ietf_anima_signaling_pro.Base.{
  subst, ◌==◌, ◌||◌, if◌then◌else◌, ℕ, ◌+◌, ◌-◌, ◌^◌, ◌≤◌, ◌<◌, ◌≡◌, ◌∙◌, u32, Endian, List, ◌∷◌,
  ◌++◌, zeros, none, some, Bool, true, arith, Bool-cases, inl, inr,
}
use ietf_anima_signaling_pro.Errno.{success}
use ietf_anima_signaling_pro.Msg.{Msg, nego_msg, nego_end_msg, max_session_id}
use ietf_anima_signaling_pro.Msg.Codec.{encoded}
use ietf_anima_signaling_pro.Pdu.{Written, wrote, sizeof_msg}
use ietf_anima_signaling_pro.Pdu.Carried.{Carries, encoded-Carries}
use ietf_anima_signaling_pro.GdnpOption.{
  OptionType, GdnpOption, ObjectiveOption, accept, decline, get_value, parse_bits,
  objective_parse_bits,
}
use ietf_anima_signaling_pro.GdnpOption.Uniform.{empty_option}
use ietf_anima_signaling_pro.Session.Run.{Asa}
use ietf_anima_signaling_pro.Negotiation.Writes.{write_then-whole}
use ietf_anima_signaling_pro.Negotiation.Offer.{answering, do_negotiate-handle}
use ietf_anima_signaling_pro.Negotiation.{
  Incoming, Talk, ends, with_client, configure, send_decision, handle, do_negotiate,
}

send_decision-sent :
    (e : Endian) (t : Talk) (fd random : ℕ) (ws : List (ℕ × Written)) (type : OptionType)
    (k : Talk → Talk)
    → t.client.tcp_sock ≡ some fd
    → t.client.session_id ≤ max_session_id
    → t.writes ≡ (random, wrote sizeof_msg) ∷ ws
    → random < 2 ^ 32
    → (m : Msg) × (content : List ℕ) × (send_decision e t type k
        ≡ ends success (k (record t { writes = ws; handed = m ∷ t.handed })))
      × Carries e m nego_end_msg t.client.session_id content
      × ((chunk : List ℕ)
          → parse_bits e chunk content ≡ some (record { type = type; len = 0; value = none }))
unfolding send_decision
send_decision-sent e t fd random ws type k opened in_range writes small =
    let (bits, printed, size, parsed, _) = empty_option e type in
    (
      encoded random nego_end_msg t.client.session_id bits 4,
      bits ++ zeros 996,
      rw printed (
          write_then-whole t fd random ws bits 4 nego_end_msg _ opened in_range writes (omega arith)
            (omega (arith, size))),
      subst
          (λ n.
            Carries e (encoded random nego_end_msg t.client.session_id bits n) nego_end_msg
              t.client.session_id (bits ++ zeros (1000 - n)))
          size
          (encoded-Carries e random nego_end_msg t.client.session_id bits small in_range
            (omega (arith, size))),
      λ chunk. parsed chunk (zeros 996),
    )

-- Whether the agent takes the value that the message offers.
abbrev pub takes : Asa → ObjectiveOption → Bool
takes asa oo = asa.asa_geq_fn (asa.asa_negotiate_result (get_value oo.base)) (get_value oo.base)

module _ (e : Endian) (asa : Asa) (i : Incoming) (t : Talk) (fd random : ℕ)
    (ws : List (ℕ × Written)) (o : GdnpOption) (oo : ObjectiveOption)
    (opened : t.client.tcp_sock ≡ some fd) (in_range : t.client.session_id ≤ max_session_id)
    (writes : t.writes ≡ (random, wrote sizeof_msg) ∷ ws) (small : random < 2 ^ 32)
    (first : parse_bits e i.option_chunk t.buffer ≡ some o)
    (second : objective_parse_bits e i.objective_chunk t.buffer ≡ some oo) where
  -- On a socket that takes the next message whole, a NEGO_MSG whose value the agent takes, or whose
  -- loop count is 1, ends the negotiation with success and one NEGO_END_MSG of the session: Accept
  -- if the agent takes the value, which is then also given to `do_configuration`, and otherwise
  -- Decline. Who reads it, in the same byte order, is given that option, without a value.
  pub do_negotiate-verdict :
      (takes asa oo || (oo.loop_count == 1)) ≡ true
      → (m : Msg) × (content : List ℕ) × (do_negotiate e asa i t nego_msg
          ≡ ends success (record t {
            client = answering oo t.client;
            writes = ws;
            handed = m ∷ t.handed;
            configured = if takes asa oo then get_value oo.base ∷ t.configured else t.configured;
          }))
        × Carries e m nego_end_msg t.client.session_id content
        × ((chunk : List ℕ)
            → parse_bits e chunk content
              ≡ some (record {
                type = if takes asa oo then accept else decline;
                len = 0;
                value = none;
              }))
  unfolding handle
  do_negotiate-verdict final = elim (Bool-cases (takes asa oo)) [
    | inl taken ↦
        (let (m, content, sent, carried, parsed) =
            send_decision-sent e (with_client t (answering oo t.client)) fd random ws accept
              (configure (get_value oo.base)) opened in_range writes small in
          (
            m,
            content,
            do_negotiate-handle e asa i t fd random ws o oo opened in_range writes small first
                  second nego_msg
                ∙ rw taken sent,
            carried,
            rw taken parsed,
          ))
    | inr left ↦
        (let counts : (u32 (oo.loop_count + 2 ^ 32 - 1) == 0) ≡ true =
            ground (arith, final, left) in
          let (m, content, sent, carried, parsed) =
            send_decision-sent e (with_client t (answering oo t.client)) fd random ws decline
              (λ u. u) opened in_range writes small in
          (
            m,
            content,
            do_negotiate-handle e asa i t fd random ws o oo opened in_range writes small first
                  second nego_msg
                ∙ rw (left, counts) sent,
            carried,
            rw left parsed,
          ))
  ]
