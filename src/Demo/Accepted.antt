-- ===== src/Demo/Accepted.antt =====
-- The two programs together: "test1" is accepted, and what comes of it.
use ietf_anima_signaling_pro.Msg.{Msg}
use ietf_anima_signaling_pro.Content.{Content}
use ietf_anima_signaling_pro.Session.{Session}
use ietf_anima_signaling_pro.Client.{Client}
