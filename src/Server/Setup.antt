-- ===== src/Server/Setup.antt =====
-- Server.cpp: the constructor of `ServerMaster`, `server_init`, `listen_negotiate` and
-- `stop_negotiate`. What the system answers is an argument.
pub mod Interfaces
pub mod Answers
use ietf_anima_signaling_pro.Base.{
  ◌>>=◌, ℕ, ◌==◌, if◌then◌else◌, List, [], ◌∷◌, Option, none, some, Bool, true, false, ◌||◌,
}
use ietf_anima_signaling_pro.Errno.{Errno, success, error}
use ietf_anima_signaling_pro.Pdu.{Descriptor}
use ietf_anima_signaling_pro.Pdu.Sockets.{Sockets, no_sockets, server_udp_init, server_tcp_init}
use ietf_anima_signaling_pro.Server.Sessions.{SessionMap}
use ietf_anima_signaling_pro.Server.Descriptors.{Table}
use ietf_anima_signaling_pro.Server.Turn.{Master}

-- An entry of the list of `getifaddrs`: it has no address, one of another family, or one of AF_INET6,
-- with what `host` holds if `getnameinfo` answers 0.
pub data IfAddr : Type 0 where
  no_address other_family : IfAddr
  inet6 : Option (List ℕ) → IfAddr

-- The string up to the first '%'. `none`: `host` has no end.
unfoldable pub cut_scope : List ℕ → Option (List ℕ)
cut_scope [] = none
cut_scope (c ∷ host) =
    let rest = cut_scope host in
    if (c == 0) || (c == 37) then some [] else (rest >>= λ s. some (c ∷ s))

-- The loop over the entries.
unfoldable pub interface_names : List IfAddr → Option (List (List ℕ))
unfolding cut_scope
interface_names [] = some []
interface_names (inet6 (some host) ∷ more) = do
  s ← cut_scope host
  names ← interface_names more
  some (s ∷ names)
interface_names (_ ∷ more) = interface_names more

-- The constructor; `fds` is the memory of `tcp_fd_set`. If `getifaddrs` fails, the pointer that
-- `freeifaddrs` is given has no value.
unfoldable pub new_master : List Descriptor → Option (List IfAddr) → Option Master
unfolding interface_names
new_master fds none = none
new_master fds (some entries) = interface_names entries >>= λ names. some (record {
  udp_sock = no_sockets.udp_sock;
  listen_sock = none;
  tcp_sock = no_sockets.tcp_sock;
  table = record { fds = fds; accepted = 0 };
  sessions = [];
  local_interfaces = names;
  locked = false;
})

-- `server_init` up to the new thread: what `server_udp_init` answers is dropped, and -1 is outside
-- every set.
unfoldable pub server_init : Descriptor → Bool → Master → Option (Errno × Master)
unfolding server_udp_init
server_init none bound m = none
server_init (some fd) bound m =
    let (code, s) =
      server_udp_init (some fd) bound (record { udp_sock = m.udp_sock; tcp_sock = m.tcp_sock }) in
    some (success, record m { udp_sock = s.udp_sock; tcp_sock = s.tcp_sock })

-- `listen_negotiate`. `none`: it waits for `fdset_lock`.
unfoldable pub listen_negotiate : Descriptor → Bool → Bool → Master → Option (Errno × Master)
listen_negotiate none bound listening m = some (error, record m { listen_sock = none })
listen_negotiate (some fd) bound listening m =
    if m.locked
    then none
    else some (server_tcp_init bound listening, record m { listen_sock = some fd })

-- `stop_negotiate`: the code and the descriptors that are closed. The members stay.
unfoldable pub stop_negotiate : Master → Errno × List Descriptor × Master
stop_negotiate m = (success, m.tcp_sock ∷ m.listen_sock ∷ [], m)
