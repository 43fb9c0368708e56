-- ===== src/Errno.antt =====
-- Errno.h: the result codes, and how a function of the program ends.
use Prim.Native.Nat.{ℕ}
use mathlib.Core.Bool.{Bool, true, false}
use mathlib.Core.Option.{Option, none, some}

-- `negative n` is the code -n.
pub data Code : Type 0 where
  positive : ℕ → Code
  negative : ℕ → Code

pub data Errno : Type 0 where
  send_err send_unexpected_bytes_err options_too_long_err session_id_too_long_err : Errno
  msg_type_err null_point_err encode_err recv_err bind_err : Errno
  server_send_unexcepted_msg_type_err server_unexcepted_state_err : Errno
  server_recv_unexcepted_msg_type_err client_send_unexcepted_msg_type_err : Errno
  client_recv_nothing_err client_unexcepted_state_err client_recv_unexcepetd_msg_type_err : Errno
  select_err unexcepte_server_sockaddr addr_err client_recv_nomatched_session_id_err : Errno
  sock_not_init error success timeout : Errno

-- The value that the header gives each name.
unfoldable pub errno_code : Errno → Code
errno_code send_err = negative 2
errno_code send_unexpected_bytes_err = negative 3
errno_code options_too_long_err = negative 4
errno_code session_id_too_long_err = negative 5
errno_code msg_type_err = negative 6
errno_code null_point_err = negative 7
errno_code encode_err = negative 8
errno_code recv_err = negative 9
errno_code bind_err = negative 10
errno_code server_send_unexcepted_msg_type_err = negative 11
errno_code server_unexcepted_state_err = negative 12
errno_code server_recv_unexcepted_msg_type_err = negative 13
errno_code client_send_unexcepted_msg_type_err = negative 14
errno_code client_recv_nothing_err = negative 15
errno_code client_unexcepted_state_err = negative 16
errno_code client_recv_unexcepetd_msg_type_err = negative 17
errno_code select_err = negative 18
errno_code unexcepte_server_sockaddr = negative 19
errno_code addr_err = negative 20
errno_code client_recv_nomatched_session_id_err = negative 21
errno_code sock_not_init = negative 22
errno_code error = negative 1
errno_code success = positive 1
errno_code timeout = positive 0

-- A value, an error code, or an access that C leaves undefined.
pub data Outcome {ℓ} (A : Type ℓ) : Type ℓ where
  ok : A → Outcome A
  err : Errno → Outcome A
  fault : Outcome A

infixl 5 ◌>>=◌
abbrev pub ◌>>=◌ {ℓ κ} : {A : Type ℓ} {B : Type κ} → Outcome A → (A → Outcome B) → Outcome B
ok a >>= f = f a
err e >>= f = err e
fault >>= f = fault

-- An access to memory as a step of a chain.
abbrev pub checked {ℓ} : {A : Type ℓ} → Option A → Outcome A
checked none = fault
checked (some a) = ok a

-- The test `rtnval == SUCCESS`.
abbrev pub is_success : Errno → Bool
is_success success = true
is_success _ = false
