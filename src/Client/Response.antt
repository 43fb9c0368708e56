-- ===== src/Client/Response.antt =====
-- Client.cpp, `recv`: a response after rounds in which nothing arrives.
use ietf_anima_signaling_pro.Base.{
  ℕ, ◌+◌, ◌≤◌, ◌≡◌, ap, ◌∙◌, Endian, List, ◌∷◌, ◌++◌, length, some, arith,
}
use ietf_anima_signaling_pro.Errno.{ok, success}
use ietf_anima_signaling_pro.Msg.{Msg, response_msg, Decoded}
use ietf_anima_signaling_pro.Pdu.{Written, Reading, recv_pdu}
use ietf_anima_signaling_pro.Client.{
  Client, informed, Arrival, datagram, Script, done, max_try_times,
}
use ietf_anima_signaling_pro.Client.Receive.{
  recv_in_time, recv_in_wait_response, left, resend_on_timeout, recv_loop, after_loop, recv,
}
use ietf_anima_signaling_pro.Client.Retry.{
  silence, whole, repeats, IsAsking, rounds-silent, tried-IsAsking, recv-asking,
}

round-response :
    (e : Endian) (stale : List ℕ) (fd n : ℕ) (c : Client) (s : Script) (r : Reading) (d : Decoded)
    (rest : List Arrival)
    → IsAsking fd n c
    → recv_pdu e c.udp_sock r tt stale ≡ ok (d, tt)
    → d.session_id ≡ c.session_id
    → d.type ≡ response_msg
    → recv_loop e stale c s (datagram r ∷ rest)
      ≡ done success (record c { cur_states = informed; received = some d }) (left rest s)
unfolding recv_loop resend_on_timeout recv_in_wait_response recv_in_time
round-response e stale fd n c s r d rest i came same type =
    ground (arith, i.opened, i.asking, came, same, type)

-- A RESPONSE_MSG of the client's session that comes after no more silences than it has tries left
-- informs it: it stops with SUCCESS in the state INFORMED, the message is with the caller, it has
-- repeated its DISCOVERY_MSG once for each silence, and its tries are reset.
pub recv-response :
    (e : Endian) (stale : List ℕ) (fd n : ℕ) (rs : List ℕ) (c : Client) (ws : List (ℕ × Written))
    (r : Reading) (d : Decoded) (rest : List Arrival) (handed : List Msg)
    → IsAsking fd n c
    → c.try_times + length rs ≤ max_try_times
    → recv_pdu e c.udp_sock r tt stale ≡ ok (d, tt)
    → d.session_id ≡ c.session_id
    → d.type ≡ response_msg
    → recv e stale c (record {
      writes = whole rs ++ ws;
      arrivals = silence (length rs) ++ datagram r ∷ rest;
      handed = handed;
    })
      ≡ done success
          (record c { cur_states = informed; try_times = 0; received = some d })
          (record {
            writes = ws;
            arrivals = rest;
            handed = repeats c.session_id c.last_top_options n rs handed;
          })
recv-response e stale fd n rs c ws r d rest handed i h came same type =
    recv-asking e stale c _ i.asking
    ∙ (ap after_loop (
        rounds-silent e stale fd n rs c ws (datagram r ∷ rest) handed i h
        ∙ round-response e stale fd n (record c { try_times = c.try_times + length rs }) _ r d rest
            (tried-IsAsking fd n (c.try_times + length rs) c i) came same type))
