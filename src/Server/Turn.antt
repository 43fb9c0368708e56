-- ===== src/Server/Turn.antt =====
-- Server.cpp, `ServerMaster::run`: one round of the loop that serves all sockets.
pub mod Cases
pub mod Lock
pub mod Reply
use ietf_anima_signaling_pro.Base.{
  ◌>>=◌, ℕ, zero, suc, ◌+◌, ltb, if◌then◌else◌, u16, Endian, List, [], ◌∷◌, ◌++◌, strlen, zeros,
  Option, none, some, Bool, true, false,
}
use ietf_anima_signaling_pro.Errno.{Errno, Outcome, ok, err, fault}
use ietf_anima_signaling_pro.Msg.{MsgType, discovery_msg, response_msg, Decoded, max_string_length}
use ietf_anima_signaling_pro.GdnpOption.{GdnpOption, locator, to_bits, option_len_except_value}
use ietf_anima_signaling_pro.Pdu.{
  Descriptor, Written, Reading, Sending, send_pdu, recv_pdu, read_pdu,
}
use ietf_anima_signaling_pro.Server.Sessions.{SessionMap, Delivered, distribute}
use ietf_anima_signaling_pro.Server.Descriptors.{Table, max_clients_num, fd_at}

-- The members of `ServerMaster` that `run` uses; `locked` says whether `fdset_lock` is held.
pub record Master : Type 0 where
  pub udp_sock : Descriptor
  pub listen_sock : Descriptor
  pub tcp_sock : Descriptor
  pub table : Table
  pub sessions : SessionMap
  pub local_interfaces : List (List ℕ)
  pub locked : Bool

-- What `select` answers: -1, 0, or the set of the descriptors that are ready.
pub data Select : Type 0 where
  select_failed timed_out : Select
  ready : (ℕ → Bool) → Select

-- What else a round meets: the random part of a message, the answers of the calls that send,
-- receive and accept, the sender's address, and the blocks that local arrays lie in.
pub record World (Address : Type 0) : Type 0 where
  pub random : ℕ
  pub written : Written
  pub reading : Reading
  pub stale : List ℕ
  pub from : Address
  pub accepting : Descriptor
  pub stack : List ℕ

-- What a round does.
pub data Act (Address : Type 0) : Type 0 where
  -- `udp_sock` is -1.
  no_socket : Act Address
  -- It waits for `fdset_lock`, which nobody will give back.
  blocked : Act Address
  select_error waited : Act Address
  pdu_refused : Errno → Act Address
  not_discovery : Act Address
  replied : Sending × Address → Act Address
  -- `accept` was called, or the table was full.
  client_accepted table_full : Act Address
  delivered : Delivered → Act Address
  -- None of the three tests held.
  unserved : Act Address

abbrev pub with_lock : Bool → Master → Master
with_lock b m = record m { locked = b }

-- `FD_SET` of the first `n` entries of the table, of which -1 is outside every set.
unfoldable pub watchable : ℕ → List Descriptor → Bool
watchable zero fds = true
watchable (suc n) [] = false
watchable (suc n) (none ∷ fds) = false
watchable (suc n) (some fd ∷ fds) = watchable n fds

-- `sock != -1 && FD_ISSET(sock, &read_flags)`.
abbrev pub is_ready : Descriptor → (ℕ → Bool) → Bool
is_ready none r = false
is_ready (some fd) r = r fd

-- `local_interfaces[i]`.
unfoldable pub interface_at : ℕ → List (List ℕ) → Option (List ℕ)
interface_at i [] = none
interface_at zero (s ∷ rest) = some s
interface_at (suc i) (s ∷ rest) = interface_at i rest

-- The locator option whose value is the string `s`, from its `c_str()`.
unfoldable pub locator_option : List ℕ → Option GdnpOption
locator_option s = do
  n ← strlen (s ++ 0 ∷ [])
  some (record { type = locator; len = u16 n; value = some (s ++ 0 ∷ []) })

-- The answer to a DISCOVERY_MSG.
unfoldable pub discovery_reply :
    {Address : Type 0} → Endian → World Address → Master → ℕ → Address → Option (Sending × Address)
discovery_reply e w m session_id client_addr = do
  s ← interface_at 1 m.local_interfaces
  o ← locator_option s
  bits ← to_bits e o
  send_pdu m.udp_sock w.random w.written bits (o.len + option_len_except_value) response_msg
      session_id client_addr

unfoldable pub is_discovery : MsgType → Bool
is_discovery discovery_msg = true
is_discovery _ = false

-- What is done with what `recv_pdu` made of a datagram.
unfoldable pub answer_udp :
    {Address : Type 0}
    → Endian
    → World Address
    → Master
    → Outcome (Decoded × Address)
    → Option (Master × Act Address)
answer_udp e w m fault = none
answer_udp e w m (err code) = some (m, pdu_refused code)
answer_udp e w m (ok (d, client)) =
    if is_discovery d.type
    then (discovery_reply e w m d.session_id client >>= λ s. some (m, replied s))
    else some (m, not_discovery)

-- A datagram is there.
unfoldable pub serve_udp :
    {Address : Type 0} → Endian → World Address → Master → Option (Master × Act Address)
unfolding answer_udp
serve_udp e w m = answer_udp e w m (recv_pdu e m.udp_sock w.reading w.from w.stale)

-- `fds[i] = fd`.
unfoldable pub fd_put : ℕ → Descriptor → List Descriptor → Option (List Descriptor)
fd_put i fd [] = none
fd_put zero fd (d ∷ fds) = some (fd ∷ fds)
fd_put (suc i) fd (d ∷ fds) = fd_put i fd fds >>= λ r. some (d ∷ r)

-- A connection is waiting.
unfoldable pub serve_listen :
    {Address : Type 0} → World Address → Master → Option (Master × Act Address)
serve_listen w m =
    if ltb m.table.accepted max_clients_num
    then (do
      fds ← fd_put m.table.accepted w.accepting m.table.fds
      some (
        record m {
          tcp_sock = w.accepting;
          table = record { fds = fds; accepted = m.table.accepted + 1 };
        },
        client_accepted,
      ))
    else some (m, table_full)

-- Data is there on `tcp_sock`.
unfoldable pub serve_tcp :
    {Address : Type 0} → Endian → World Address → Master → Option (Master × Act Address)
serve_tcp e w m = elim (read_pdu e m.tcp_sock w.reading w.stale) [
  | fault ↦ none
  | err code ↦ some (m, pdu_refused code)
  | ok d ↦ do
    r ← distribute w.stack m.tcp_sock m.sessions d.session_id d.content d.data_size d.type
    some (record m { sessions = r.0 }, delivered r.1)
]

-- After `select` with `flag` > 0: the lock is taken, and each branch gives it back.
unfoldable pub serve :
    {Address : Type 0}
    → Endian
    → World Address
    → (ℕ → Bool)
    → Master
    → Option (Master × Act Address)
serve e w r m =
    if is_ready m.udp_sock r
    then serve_udp e w (with_lock false m)
    else if is_ready m.listen_sock r
    then serve_listen w (with_lock false m)
    else if is_ready m.tcp_sock r
    then serve_tcp e w (with_lock false m)
    else some (with_lock true m, unserved)

abbrev pub after_select :
    {Address : Type 0} → Endian → World Address → Select → Master → Option (Master × Act Address)
after_select e w select_failed m = some (m, select_error)
after_select e w timed_out m = some (m, waited)
after_select e w (ready r) m = serve e w r m

-- One round. `none`: an access outside an array or a set.
unfoldable pub turn :
    {Address : Type 0} → Endian → World Address → Select → Master → Option (Master × Act Address)
turn e w s m = elim m.udp_sock [
  | none ↦ some (m, no_socket)
  | some fd ↦
      if m.locked
      then some (m, blocked)
      else if watchable m.table.accepted m.table.fds
      then after_select e w s m
      else none
]
