-- ===== src/Server/Setup/Answers.antt =====
-- Server.cpp: a discovery that reaches a server after its set-up.
use mathlib.Core.Option.{some-injective}
use ietf_anima_signaling_pro.Base.{
  >>=-eq-some, ℕ, ◌^◌, ◌≤◌, ◌<◌, ◌≡◌, sym, ap, ◌∙◌, Endian, List, length, some, Bool,
}
use ietf_anima_signaling_pro.Errno.{Errno, success, ok}
use ietf_anima_signaling_pro.Msg.{Msg, discovery_msg, max_session_id, Decoded}
use ietf_anima_signaling_pro.Pdu.{Descriptor, wrote, sizeof_msg, recv_pdu}
use ietf_anima_signaling_pro.Server.Turn.{Master, World, replied, interface_at, serve_udp}
use ietf_anima_signaling_pro.Server.Turn.Reply.{Answers, serve_udp-discovery}
use ietf_anima_signaling_pro.Server.Setup.{IfAddr, interface_names, new_master, server_init}
use ietf_anima_signaling_pro.Server.Setup.Interfaces.{interface_names-IsName, IsName-IsText}

-- A server that is constructed and initialised, whatever `bind` answers, replies to each
-- DISCOVERY_MSG that it receives by one RESPONSE_MSG of the same session to the sender, where the
-- system takes the message whole and the second of the names that the constructor collected has 1
-- to 996 bytes. Who receives that, in the same byte order, finds a locator option with this name if
-- the block that `malloc` returns to its parser for two bytes has room for the name (two bytes are
-- all that is promised); if not, the parser writes past the block, and what it does is undefined.
pub new_master-answers :
    {Address : Type 0} (e : Endian) (w : World Address) (fds : List Descriptor)
    (entries : List IfAddr) (names : List (List ℕ)) (s : List ℕ) (fd : ℕ) (bound : Bool)
    (m0 m : Master) (code : Errno) (d : Decoded) (client : Address)
    → interface_names entries ≡ some names
    → interface_at 1 names ≡ some s
    → 0 < length s
    → length s ≤ 996
    → new_master fds (some entries) ≡ some m0
    → server_init (some fd) bound m0 ≡ some (code, m)
    → recv_pdu e (some fd) w.reading w.from w.stale ≡ ok (d, client)
    → d.type ≡ discovery_msg
    → d.session_id ≤ max_session_id
    → w.random < 2 ^ 32
    → w.written ≡ wrote sizeof_msg
    → (answer : Msg) × (serve_udp e w m
        ≡ some (m, replied (record { code = success; handed = some answer }, client)))
      × ((from : Address) → Answers e d.session_id s answer from)
unfolding new_master server_init
new_master-answers e w fds entries names s fd bound m0 m code d client collected second pos short
      constructed initialised came type sid random sent =
    let (got, found, built) = >>=-eq-some (interface_names entries) _ constructed in
    let ready = ap (λ (r : Errno × Master). r.1) (some-injective _ _ initialised) in
    let kept : names ≡ m0.local_interfaces =
      some-injective _ _ (sym collected ∙ found)
      ∙ ap (λ (x : Master). x.local_interfaces) (some-injective _ _ built) in
    let opened : m.udp_sock ≡ some fd = ap (λ (x : Master). x.udp_sock) (sym ready) in
    let same : m0.local_interfaces ≡ m.local_interfaces =
      ap (λ (x : Master). x.local_interfaces) ready in
    serve_udp-discovery e w m fd d client s opened
      (ap (λ s. recv_pdu e s w.reading w.from w.stale) opened ∙ came) type sid
      (ap (interface_at 1) (sym same ∙ sym kept) ∙ second)
      (IsName-IsText s (interface_names-IsName entries names 1 s collected second)) pos short random
      sent
