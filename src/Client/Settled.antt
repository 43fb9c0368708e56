-- ===== src/Client/Settled.antt =====
-- Client.cpp, `recv`: what every script leads to, for a client that waits for a response.
use ietf_anima_signaling_pro.Base.{
  ◌∙◌, sym, ℕ, ◌≡◌, ◌≢◌, ◌⊎◌, inl, inr, Endian, List, [], ◌∷◌, Option, none, some, zeros,
  Bool-cases, true, false, arith,
}
use ietf_anima_signaling_pro.Errno.{◌>>=◌, Errno, err, checked, success}
use ietf_anima_signaling_pro.Msg.{decode, Decoded, Msg}
use ietf_anima_signaling_pro.Pdu.{Written, Descriptor, broken, got, msg_of_bytes, overlay, recv_pdu}
use ietf_anima_signaling_pro.Client.{
  is_success, Client, wait_response, informed, ended, Arrival, select_failed, timed_out, datagram,
  Script, Run, done, pending, undefined, send_until_bound, send_discover, send,
}
use ietf_anima_signaling_pro.Client.Retry.{recv-asking}
use ietf_anima_signaling_pro.Client.Receive.{
  in_time, recv_in_time, recv_in_wait, recv_in_wait_response, end_on_timeout, resend,
  resend_on_timeout, if_waiting, is_wait_response, recv_loop, after_loop, recv,
}

send_until_bound-client :
    (c c' : Client) (buffer : List ℕ) (n : ℕ) (ws : List (ℕ × Written)) (arrivals : List Arrival)
    (handed : List Msg) (s' : Script) (code : Errno)
    → send_until_bound c buffer n ws arrivals handed ≡ done code c' s'
    → c'.cur_states ≡ c.cur_states
unfolding send_until_bound
send_until_bound-client c c' buffer n [] arrivals handed s' code h = ground arith
send_until_bound-client c c' buffer n (w ∷ ws) arrivals handed s' code h =
    grind (arith, λ (hs : List Msg). send_until_bound-client c c' buffer n ws arrivals hs s' code)

decode-err : (m : Msg) (dst : List ℕ) → decode (some m) dst ≢ err success
unfolding decode
decode-err m dst h = ground arith

checked-err :
    (o : Option Msg) (dst : List ℕ) → (checked o >>= λ m. decode (some m) dst) ≢ err success
checked-err none dst h = cc
checked-err (some m) dst h = decode-err m dst h

-- A message that is taken was stored.
recv_in_time-stored :
    (e : Endian) (stale : List ℕ) (fd : Descriptor) (sid : ℕ) (a : Arrival)
    → recv_in_time e stale fd sid a ≢ in_time success none
unfolding recv_in_time recv_pdu
recv_in_time-stored e stale none sid a h = ground arith
recv_in_time-stored e stale (some fd) sid select_failed h = ground arith
recv_in_time-stored e stale (some fd) sid timed_out h = ground arith
recv_in_time-stored e stale (some fd) sid (datagram broken) h = ground arith
recv_in_time-stored e stale (some fd) sid (datagram (got bytes)) h =
    ground (arith, checked-err (msg_of_bytes e (overlay bytes stale)) (zeros 1000))

recv_in_wait-success :
    (e : Endian) (stale : List ℕ) (c c' : Client) (s s' : Script) (arrivals : List Arrival)
    → recv_in_wait e stale c s arrivals ≡ done success c' s'
    → (c'.cur_states ≡ informed) ⊎ (c'.cur_states ≡ ended)
unfolding recv_in_wait
recv_in_wait-success e stale c c' s s' [] h = ground arith
recv_in_wait-success e stale c c' s s' (a ∷ rest) h = grind (
  arith,
  recv_in_time-stored e stale c.udp_sock c.session_id a,
  λ (d : Decoded). recv_in_wait-success e stale (record c { received = some d }) c' s s' rest,
)

end_on_timeout-success :
    (r : Run) (c' : Client) (s' : Script)
    → end_on_timeout r ≡ done success c' s'
    → r ≡ done success c' s'
end_on_timeout-success r c' s' h = ground arith

recv_in_wait_response-success :
    (e : Endian) (stale : List ℕ) (c c' : Client) (s s' : Script) (a : Arrival)
    (rest : List Arrival)
    → recv_in_wait_response e stale c s a rest ≡ done success c' s'
    → (c'.cur_states ≡ informed) ⊎ (c'.cur_states ≡ ended)
unfolding recv_in_wait_response
recv_in_wait_response-success e stale c c' s s' a rest h = grind (
  arith,
  recv_in_time-stored e stale c.udp_sock c.session_id a,
  λ (x : Client). end_on_timeout-success (recv_in_wait e stale x s rest) c' s',
  λ (x : Client). recv_in_wait-success e stale x c' s s' rest,
)

resend-success :
    (c c' : Client) (s s' : Script)
    → is_wait_response c.cur_states ≡ true
    → resend c s ≡ done success c' s'
    → is_wait_response c'.cur_states ≡ true
unfolding resend send send_discover
resend-success c c' s s' w h = grind (
  arith,
  λ (x : Client) (n : ℕ).
      send_until_bound-client c x c.last_top_options n s.writes s.arrivals s.handed s' success,
)

round-success :
    (r : Run) (c' : Client) (s' : Script)
    → resend_on_timeout r ≡ done success c' s'
    → (r ≡ done success c' s') ⊎ (is_wait_response c'.cur_states ≡ true)
unfolding resend_on_timeout
round-success r c' s' h = grind (arith, λ (x : Client) (y : Script). resend-success x c' y s')

-- Not in WAIT_RESPONSE; and if all went well, informed or at the end.
abbrev pub IsSettled : Errno → Client → Type 0
IsSettled code c =
    (is_wait_response c.cur_states ≡ false)
    × ((is_success code ≡ false) ⊎ ((c.cur_states ≡ informed) ⊎ (c.cur_states ≡ ended)))

-- A round that ends the loop, or goes on with `k`.
if_waiting-IsSettled :
    (r : Run) (k : Client → Script → Run) (code : Errno) (c' : Client) (s' : Script)
    → ((c : Client) (s : Script)
        → r ≡ done success c s
        → is_wait_response c.cur_states ≡ false
        → (c.cur_states ≡ informed) ⊎ (c.cur_states ≡ ended))
    → ((c : Client) (s : Script) → k c s ≡ done code c' s' → IsSettled code c')
    → if_waiting r k ≡ done code c' s'
    → IsSettled code c'
if_waiting-IsSettled pending k code c' s' stop go_on h = absurd (ground arith)
if_waiting-IsSettled undefined k code c' s' stop go_on h = absurd (ground arith)
if_waiting-IsSettled (done code1 c s) k code c' s' stop go_on h =
    elim (Bool-cases (is_wait_response c.cur_states)) [
      | inl waits ↦ go_on c s (rw waits at h)
      | inr stops ↦ elim (Bool-cases (is_success code1)) [
        | inl fine ↦ grind (arith, stop, fine)
        | inr bad ↦ ground (arith, bad, stops)
      ]
    ]

round-stops :
    (e : Endian) (stale : List ℕ) (c c' : Client) (s s' : Script) (a : Arrival)
    (rest : List Arrival)
    → resend_on_timeout (recv_in_wait_response e stale c s a rest) ≡ done success c' s'
    → is_wait_response c'.cur_states ≡ false
    → (c'.cur_states ≡ informed) ⊎ (c'.cur_states ≡ ended)
round-stops e stale c c' s s' a rest h stops = elim (round-success _ c' s' h) [
  | inl same ↦ recv_in_wait_response-success e stale c c' s s' a rest same
  | inr waits ↦ absurd (ground (arith, waits, stops))
]

recv_loop-IsSettled :
    (e : Endian) (stale : List ℕ) (c c' : Client) (s s' : Script) (arrivals : List Arrival)
    (code : Errno)
    → recv_loop e stale c s arrivals ≡ done code c' s'
    → IsSettled code c'
unfolding recv_loop
recv_loop-IsSettled e stale c c' s s' [] code h = absurd (ground arith)
recv_loop-IsSettled e stale c c' s s' (a ∷ rest) code h =
    if_waiting-IsSettled (resend_on_timeout (recv_in_wait_response e stale c s a rest))
      (λ c1 s1. recv_loop e stale c1 s1 rest) code c' s'
      (λ c1 s1. round-stops e stale c c1 s s1 a rest)
      (λ c1 s1. recv_loop-IsSettled e stale c1 c' s1 s' rest code) h

after_loop-IsSettled :
    (r : Run) (code : Errno) (c' : Client) (s' : Script)
    → ((c : Client) (s : Script) → r ≡ done code c s → IsSettled code c)
    → after_loop r ≡ done code c' s'
    → IsSettled code c' × (c'.try_times ≡ 0)
after_loop-IsSettled pending code c' s' l h = absurd (ground arith)
after_loop-IsSettled undefined code c' s' l h = absurd (ground arith)
after_loop-IsSettled (done code1 c s) code c' s' l h = grind (arith, l c s)

-- Whatever is written and whatever arrives: when `recv` of a client in WAIT_RESPONSE comes back, the
-- client is not in WAIT_RESPONSE and its tries are reset, and if the code is SUCCESS the client is
-- INFORMED or at the END. With another code it may be in another state, such as WAIT after a
-- WAIT_MSG and a message of the wrong type.
pub recv-IsSettled :
    (e : Endian) (stale : List ℕ) (c c' : Client) (s s' : Script) (code : Errno)
    → c.cur_states ≡ wait_response
    → recv e stale c s ≡ done code c' s'
    → IsSettled code c' × (c'.try_times ≡ 0)
recv-IsSettled e stale c c' s s' code asking h =
    after_loop-IsSettled (recv_loop e stale c s s.arrivals) code c' s'
      (λ c1 s1. recv_loop-IsSettled e stale c c1 s s1 s.arrivals code)
      (sym (recv-asking e stale c s asking) ∙ h)
