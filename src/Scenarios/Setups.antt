-- ===== src/Scenarios/Setups.antt =====
-- A server that is set up, and its table of sockets.
use ietf_anima_signaling_pro.Scenarios.Masters.{outside, discovered, discovery_arrives}
use ietf_anima_signaling_pro.Base.{List, ℕ, ◌≡◌, refl, [], ◌∷◌, little, none, some, false, arith}
use ietf_anima_signaling_pro.Errno.{success}
use ietf_anima_signaling_pro.Msg.{Msg}
use ietf_anima_signaling_pro.Pdu.Sockets.{server_udp_init}
use ietf_anima_signaling_pro.Server.Setup.{
  IfAddr, inet6, other_family, no_address, interface_names, cut_scope, new_master, server_init,
}
use ietf_anima_signaling_pro.Server.Setup.Answers.{new_master-answers}
use ietf_anima_signaling_pro.Server.Descriptors.Removal.{shift_left-removes}
use ietf_anima_signaling_pro.Server.Descriptors.{shift_left}
use ietf_anima_signaling_pro.Server.Turn.{interface_at, Master, serve_udp, replied}
use ietf_anima_signaling_pro.Server.Turn.Reply.{Answers}

-- A loopback address, an interface without one, and "fe::%3".
abbrev pub entries : List IfAddr
entries =
    inet6 (some (58 ∷ 58 ∷ 49 ∷ 0 ∷ 0 ∷ []))
    ∷ other_family
    ∷ no_address
    ∷ inet6 (some (102 ∷ 101 ∷ 58 ∷ 58 ∷ 37 ∷ 51 ∷ 0 ∷ []))
    ∷ []

abbrev names : List (List ℕ)
names = (58 ∷ 58 ∷ 49 ∷ []) ∷ (102 ∷ 101 ∷ 58 ∷ 58 ∷ []) ∷ []

names_collected : interface_names entries ≡ some names
unfolding interface_names cut_scope
names_collected = refl

abbrev pub constructed : Master
constructed = record {
  udp_sock = none;
  listen_sock = none;
  tcp_sock = none;
  table = record { fds = some 0 ∷ some 0 ∷ some 0 ∷ some 0 ∷ some 0 ∷ []; accepted = 0 };
  sessions = [];
  local_interfaces = names;
  locked = false;
}

abbrev pub initialised : Master
initialised = record constructed { udp_sock = some 3 }

pub new_master-constructed : new_master constructed.table.fds (some entries) ≡ some constructed
unfolding new_master interface_names cut_scope
new_master-constructed = refl

pub server_init-initialised : server_init (some 3) false constructed ≡ some (success, initialised)
unfolding server_init server_udp_init
server_init-initialised = refl

new_master-answers_example :
    (answer : Msg) × (serve_udp little outside initialised
      ≡ some (initialised, replied (record { code = success; handed = some answer }, 12)))
    × ((from : ℕ) → Answers little 77 (102 ∷ 101 ∷ 58 ∷ 58 ∷ []) answer from)
unfolding interface_at
new_master-answers_example =
    new_master-answers little outside constructed.table.fds entries names (102 ∷ 101 ∷ 58 ∷ 58 ∷ [])
      3 false constructed initialised success discovered 12 names_collected refl (omega arith)
      (omega arith) new_master-constructed server_init-initialised discovery_arrives refl
      (omega arith) (omega arith) refl

shift_left-removes_example :
    shift_left 2 1 (some 5 ∷ some 6 ∷ some 7 ∷ some 8 ∷ some 9 ∷ [])
    ≡ some (some 5 ∷ some 7 ∷ some 8 ∷ some 8 ∷ some 9 ∷ [])
shift_left-removes_example =
    shift_left-removes 2 1 (some 5 ∷ some 6 ∷ some 7 ∷ some 8 ∷ some 9 ∷ []) (omega arith)
