-- ===== src/Pdu/Sockets.antt =====
-- BaseNegotiator.cpp: the functions that set sockets up, and `sockAddrEqual`. What the system answers
-- is an argument.
use ietf_anima_signaling_pro.Base.{
  ◌>>=◌, ℕ, ◌==◌, if◌then◌else◌, List, strcmp_eq, Option, none, some, Bool, false,
}
use ietf_anima_signaling_pro.Errno.{Errno, success, error, bind_err}
use ietf_anima_signaling_pro.Pdu.{Descriptor}

-- The two sockets of `BaseNegotiator`.
pub record Sockets : Type 0 where
  pub udp_sock : Descriptor
  pub tcp_sock : Descriptor

-- The constructor.
abbrev pub no_sockets : Sockets
no_sockets = record { udp_sock = none; tcp_sock = none }

abbrev pub port : ℕ
port = 4444

-- The parts of a `sockaddr_in6` that are read; `Ip` is the type of `sin6_addr`.
pub record SockAddr (Ip : Type 0) : Type 0 where
  pub sin6_addr : Ip
  pub sin6_port : ℕ

-- What `inet_pton` answers: -1, 0, or an address.
pub data Converted (Ip : Type 0) : Type 0 where
  conversion_failed invalid_address : Converted Ip
  converted : Ip → Converted Ip

-- `server_udp_init`; `bound`: `bind` answered 0.
unfoldable pub server_udp_init : Descriptor → Bool → Sockets → Errno × Sockets
server_udp_init sock bound s = (if bound then success else bind_err, record s { udp_sock = sock })

-- `client_udp_init`: the code, the sockets, and the server's address, which `inet_pton` fills in.
unfoldable pub client_udp_init :
    {Ip : Type 0} → Descriptor → Converted Ip → Ip → Sockets → Errno × Sockets × SockAddr Ip
client_udp_init sock (converted ip) zero_ip s =
    (success, record s { udp_sock = sock }, record { sin6_addr = ip; sin6_port = port })
client_udp_init sock _ zero_ip s =
    (error, record s { udp_sock = sock }, record { sin6_addr = zero_ip; sin6_port = port })

-- `server_tcp_init`; `listening`: `listen` did not answer -1. The socket is not stored.
unfoldable pub server_tcp_init : Bool → Bool → Errno
server_tcp_init bound listening = if bound then (if listening then success else error) else bind_err

-- The code of `client_tcp_init`, which stores the socket first. What `connect` answers is printed
-- only.
unfoldable pub client_tcp_init :
    {Ip : Type 0} → Descriptor → Converted Ip → Sockets → Errno × Sockets
client_tcp_init sock (converted ip) s = (success, record s { tcp_sock = sock })
client_tcp_init sock _ s = (error, record s { tcp_sock = sock })

module _ {Ip : Type 0} (inet_ntop : Ip → List ℕ) where
  -- `none`: a text without an end.
  unfoldable pub sock_addr_equal : SockAddr Ip → SockAddr Ip → Option Bool
  sock_addr_equal actual expected = do
    same ← strcmp_eq (inet_ntop actual.sin6_addr) (inet_ntop expected.sin6_addr)
    some (if same then actual.sin6_port == expected.sin6_port else false)
