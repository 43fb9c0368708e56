-- ===== src/Demo.antt =====
-- main_client_demo.cpp and main_server_demo.cpp: the two programs of the demonstration, up to the
-- loops in which they wait.
pub mod Accepted
pub mod Serving
use ietf_anima_signaling_pro.Base.{
  ◌>>=◌, ℕ, Endian, List, [], ◌∷◌, ◌++◌, zeros, Option, none, some, Bool,
}
use ietf_anima_signaling_pro.Errno.{Errno}
use ietf_anima_signaling_pro.Pdu.{Descriptor}
use ietf_anima_signaling_pro.Pdu.Sockets.{SockAddr}
use ietf_anima_signaling_pro.Client.{new_client, Client, Script, Run, done, pending, undefined}
use ietf_anima_signaling_pro.Client.Discovery.{discover}
use ietf_anima_signaling_pro.Negotiation.Course.Start.{negotiate}
use ietf_anima_signaling_pro.Server.Turn.{Master}
use ietf_anima_signaling_pro.Server.Setup.{IfAddr, new_master, server_init, listen_negotiate}

-- "test1".
abbrev pub test1 : List ℕ
test1 = 116 ∷ 101 ∷ 115 ∷ 116 ∷ 49 ∷ []

-- The array `test`, of 1000 bytes.
abbrev pub test : List ℕ
test = test1 ++ 0 ∷ zeros 994

-- What `discover` returns is not looked at; `inet_pton` is the address that a text stands for,
-- and the empty text stands for the address that the constructor leaves.
-- `none`: `discover` has not come back, or what `negotiate` copies is undefined.
abbrev pub then_negotiate :
    {Ip : Type 0}
    → (Ip → List ℕ)
    → (List ℕ → SockAddr Ip)
    → Endian
    → Ip
    → ℕ
    → Bool
    → Run
    → Option (Errno × Client)
then_negotiate inet_ntop inet_pton e broadcast number created (done code c s) =
    negotiate inet_ntop e (inet_pton c.nego_addr) broadcast test number created c
then_negotiate inet_ntop inet_pton e broadcast number created pending = none
then_negotiate inet_ntop inet_pton e broadcast number created undefined = none

-- `main` of the client: `discover`, and `negotiate` of "test1". `options` is the memory of the new
-- client's last options, `is_address` says which texts `inet_pton` converts, `random` and `number` are the two session ids' random numbers.
unfoldable pub client_main :
    {Ip : Type 0}
    → (Ip → List ℕ)
    → (List ℕ → SockAddr Ip)
    → (List ℕ → Bool)
    → Endian
    → List ℕ
    → List ℕ
    → List ℕ
    → List ℕ
    → Descriptor
    → ℕ
    → Script
    → Ip
    → ℕ
    → Bool
    → Option (Errno × Client)
client_main inet_ntop inet_pton is_address e options stale chunk local sock random s broadcast
      number created =
    then_negotiate inet_ntop inet_pton e broadcast number created
      (discover is_address e stale chunk local sock random (new_client options) s)

-- `main` of the server: the constructor, `server_init` and `listen_negotiate`, whose codes are
-- dropped.
unfoldable pub server_main :
    List Descriptor
    → Option (List IfAddr)
    → Descriptor
    → Bool
    → Descriptor
    → Bool
    → Bool
    → Option Master
server_main fds entries udp bound sock bound' listening = do
  m ← new_master fds entries
  a ← server_init udp bound m
  b ← listen_negotiate sock bound' listening a.1
  some b.1
