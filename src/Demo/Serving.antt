-- ===== src/Demo/Serving.antt =====
-- The server's program over time.
use ietf_anima_signaling_pro.Base.{>>=-eq-some, ◌≡◌, refl, subst, Endian, List, length, some, Bool}
use mathlib.Core.Option.{some-injective}
use ietf_anima_signaling_pro.Pdu.{Descriptor}
use ietf_anima_signaling_pro.Session.Run.{Asa}
use ietf_anima_signaling_pro.Server.Descriptors.{max_clients_num}
use ietf_anima_signaling_pro.Server.Setup.{IfAddr, new_master, server_init, listen_negotiate}
use ietf_anima_signaling_pro.Server.Life.{Serving, Reach, here, next, listens}
use ietf_anima_signaling_pro.Server.Life.Invariant.{IsServing, Reach-IsServing, Reach-from}
use ietf_anima_signaling_pro.Demo.{server_main}

-- The invariant of the master holds at any time after `main` of the server has come to its loop.
pub server_main-IsServing :
    (Address : Type 0) (e : Endian) (asa : Asa) (fds : List Descriptor) (entries : List IfAddr)
    (udp sock : Descriptor) (bound bound' listening : Bool) (m n : Serving)
    → length fds ≡ max_clients_num
    → server_main fds (some entries) udp bound sock bound' listening ≡ some m.master
    → Reach Address e asa m n
    → IsServing n.master
unfolding server_main
server_main-IsServing Address e asa fds entries udp sock bound bound' listening m n whole done r =
    let (m0, made, h0) = >>=-eq-some (new_master fds (some entries)) _ done in
    let (a, initialised, h1) = >>=-eq-some (server_init udp bound m0) _ h0 in
    let (b, listened, h2) = >>=-eq-some (listen_negotiate sock bound' listening a.1) _ h1 in
    Reach-from Address e asa m n
      (subst IsServing (some-injective _ _ h2) (
        Reach-IsServing Address e asa fds entries m0 (record { master = a.1; local = m.local })
          (record { master = b.1; local = m.local }) udp bound a.0 whole made initialised
          (next here (listens sock bound' listening b.0 listened refl))))
      r
