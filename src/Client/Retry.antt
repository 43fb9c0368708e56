-- ===== src/Client/Retry.antt =====
-- Client.cpp, `recv`: the rounds in which nothing arrives.
use ietf_anima_signaling_pro.Base.{
  ℕ, zero, suc, ◌+◌, ◌≤◌, ◌<◌, ◌≡◌, refl, ap, ◌∙◌, Endian, List, [], ◌∷◌, ◌++◌, length, strlen,
  none, some, arith,
}
use ietf_anima_signaling_pro.Errno.{success, client_recv_nothing_err}
use ietf_anima_signaling_pro.Msg.{Msg, discovery_msg, max_string_length, max_session_id}
use ietf_anima_signaling_pro.Msg.Codec.{encoded}
use ietf_anima_signaling_pro.Pdu.{Written, wrote, sizeof_msg, send_pdu, written_errno, write_pdu}
use ietf_anima_signaling_pro.Pdu.Transfer.{write_pdu-encoded}
use ietf_anima_signaling_pro.Client.{
  Client, wait_response, ended, Arrival, timed_out, Script, done, send_until_bound, send_discover,
  send, max_try_times,
}
use ietf_anima_signaling_pro.Client.Receive.{
  recv_in_time, recv_in_wait_response, left, resend, resend_on_timeout, recv_loop, after_loop, recv,
}

-- `n` times ten seconds without a datagram.
abbrev pub silence : ℕ → List Arrival
silence zero = []
silence (suc n) = timed_out ∷ silence n

-- Writes that take the whole message.
abbrev pub whole : List ℕ → List (ℕ × Written)
whole [] = []
whole (r ∷ rs) = (r, wrote sizeof_msg) ∷ whole rs

-- The repetitions of the first `n` bytes of `buffer`, in front of what was handed on before.
abbrev pub repeats : ℕ → List ℕ → ℕ → List ℕ → List Msg → List Msg
repeats session_id buffer n [] handed = handed
repeats session_id buffer n (r ∷ rs) handed =
    repeats session_id buffer n rs (encoded r discovery_msg session_id buffer n ∷ handed)

-- A client that has asked, and can ask again: its socket, and the string that it repeats.
pub record IsAsking (fd n : ℕ) (c : Client) : Type 0 where
  pub opened : c.udp_sock ≡ some fd
  pub asking : c.cur_states ≡ wait_response
  pub in_range : c.session_id ≤ max_session_id
  pub text : strlen c.last_top_options ≡ some n
  pub short : n ≤ max_string_length
  pub present : n ≤ length c.last_top_options

send_pdu-whole :
    (fd n r : ℕ) (c : Client) (buffer : List ℕ)
    → c.udp_sock ≡ some fd
    → c.session_id ≤ max_session_id
    → n ≤ max_string_length
    → n ≤ length buffer
    → send_pdu c.udp_sock r (wrote sizeof_msg) buffer n discovery_msg c.session_id tt
      ≡ some (
        record { code = success; handed = some (encoded r discovery_msg c.session_id buffer n) },
        tt,
      )
unfolding send_pdu write_pdu written_errno
send_pdu-whole fd n r c buffer opened in_range short present =
    ap (λ d. send_pdu d r (wrote sizeof_msg) buffer n discovery_msg c.session_id tt) opened
    ∙ ap (λ o. elim o [ none ↦ none | some x ↦ some (x, tt) ])
        (write_pdu-encoded fd r (wrote sizeof_msg) buffer n discovery_msg c.session_id in_range
          short present)

pub send_until_bound-whole :
    (fd n r : ℕ) (c : Client) (buffer : List ℕ) (ws : List (ℕ × Written)) (arrivals : List Arrival)
    (handed : List Msg)
    → c.udp_sock ≡ some fd
    → c.session_id ≤ max_session_id
    → n ≤ max_string_length
    → n ≤ length buffer
    → send_until_bound c buffer n ((r, wrote sizeof_msg) ∷ ws) arrivals handed
      ≡ done success c (record {
        writes = ws;
        arrivals = arrivals;
        handed = encoded r discovery_msg c.session_id buffer n ∷ handed;
      })
unfolding send_until_bound
send_until_bound-whole fd n r c buffer ws arrivals handed opened in_range short present =
    rw (send_until_bound, send_pdu-whole fd n r c buffer opened in_range short present) refl

-- One round of the loop in which nothing arrives, while there are tries left.
round-silent :
    (e : Endian) (stale : List ℕ) (fd n r : ℕ) (c : Client) (s : Script) (ws : List (ℕ × Written))
    (rest : List Arrival)
    → IsAsking fd n c
    → c.try_times < max_try_times
    → s.writes ≡ (r, wrote sizeof_msg) ∷ ws
    → recv_loop e stale c s (timed_out ∷ rest)
      ≡ recv_loop e stale
          (record c { try_times = c.try_times + 1 })
          (record {
            writes = ws;
            arrivals = rest;
            handed = encoded r discovery_msg c.session_id c.last_top_options n ∷ s.handed;
          })
          rest
unfolding recv_loop resend_on_timeout resend send send_discover recv_in_wait_response recv_in_time
round-silent e stale fd n r c s ws rest i more w = ground (
  arith,
  i.opened,
  i.asking,
  i.text,
  send_until_bound-whole fd n r c c.last_top_options ws rest s.handed i.opened i.in_range i.short
      i.present,
)

-- What `try_times` does not change.
pub tried-IsAsking :
    (fd n k : ℕ) (c : Client) → IsAsking fd n c → IsAsking fd n (record c { try_times = k })
tried-IsAsking fd n k c i = record {
  opened = i.opened;
  asking = i.asking;
  in_range = i.in_range;
  text = i.text;
  short = i.short;
  present = i.present;
}

-- As many silent rounds as there are tries left, or fewer.
pub rounds-silent :
    (e : Endian) (stale : List ℕ) (fd n : ℕ) (rs : List ℕ) (c : Client) (ws : List (ℕ × Written))
    (rest : List Arrival) (handed : List Msg)
    → IsAsking fd n c
    → c.try_times + length rs ≤ max_try_times
    → recv_loop e stale c
        (record {
          writes = whole rs ++ ws;
          arrivals = silence (length rs) ++ rest;
          handed = handed;
        })
        (silence (length rs) ++ rest)
      ≡ recv_loop e stale
          (record c { try_times = c.try_times + length rs })
          (record {
            writes = ws;
            arrivals = rest;
            handed = repeats c.session_id c.last_top_options n rs handed;
          })
          rest
rounds-silent e stale fd n [] c ws rest handed i h =
    ap
      (λ k.
        recv_loop e stale (record c { try_times = k })
          (record { writes = ws; arrivals = rest; handed = handed }) rest)
      {x = c.try_times} {y = c.try_times + 0} (omega arith)
rounds-silent e stale fd n (r ∷ rs) c ws rest handed i h =
    round-silent e stale fd n r c _ (whole rs ++ ws) (silence (length rs) ++ rest) i
      (omega (arith, h)) refl
    ∙ rounds-silent e stale fd n rs (record c { try_times = c.try_times + 1 }) ws rest _
        (tried-IsAsking fd n (c.try_times + 1) c i) (omega (arith, h))
    ∙ ap
        (λ k.
          recv_loop e stale (record c { try_times = k })
            (record {
              writes = ws;
              arrivals = rest;
              handed = repeats c.session_id c.last_top_options n (r ∷ rs) handed;
            })
            rest)
        (omega arith)

-- The round after the last try.
round-last :
    (e : Endian) (stale : List ℕ) (fd n : ℕ) (c : Client) (s : Script) (rest : List Arrival)
    → IsAsking fd n c
    → c.try_times ≡ max_try_times
    → recv_loop e stale c s (timed_out ∷ rest)
      ≡ done client_recv_nothing_err (record c { cur_states = ended }) (left rest s)
unfolding recv_loop resend_on_timeout resend send recv_in_wait_response recv_in_time
round-last e stale fd n c s rest i t = ground (arith, i.opened, i.asking, i.text, t)

pub recv-asking :
    (e : Endian) (stale : List ℕ) (c : Client) (s : Script)
    → c.cur_states ≡ wait_response
    → recv e stale c s ≡ after_loop (recv_loop e stale c s s.arrivals)
unfolding recv
recv-asking e stale c s h = cc

-- A client that has asked and hears nothing repeats its DISCOVERY_MSG once for each try that it has
-- left, up to five, where the system takes whole messages: each time with the first `n` bytes of what it sent last,
-- `n` the length of that as a string. At the next silence it ends, with CLIENT_RECV_NOTHING_ERR and its tries
-- reset; whatever else arrives or could be sent later is left.
pub recv-nothing :
    (e : Endian) (stale : List ℕ) (fd n : ℕ) (rs : List ℕ) (c : Client) (ws : List (ℕ × Written))
    (rest : List Arrival) (handed : List Msg)
    → IsAsking fd n c
    → c.try_times + length rs ≡ max_try_times
    → recv e stale c (record {
      writes = whole rs ++ ws;
      arrivals = silence (length rs) ++ timed_out ∷ rest;
      handed = handed;
    })
      ≡ done client_recv_nothing_err
          (record c { cur_states = ended; try_times = 0 })
          (record {
            writes = ws;
            arrivals = rest;
            handed = repeats c.session_id c.last_top_options n rs handed;
          })
recv-nothing e stale fd n rs c ws rest handed i h =
    recv-asking e stale c _ i.asking
    ∙ (ap after_loop (
        rounds-silent e stale fd n rs c ws (timed_out ∷ rest) handed i (omega (arith, h))
        ∙ round-last e stale fd n (record c { try_times = c.try_times + length rs }) _ rest
            (tried-IsAsking fd n (c.try_times + length rs) c i) h))
