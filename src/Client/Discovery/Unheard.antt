-- ===== src/Client/Discovery/Unheard.antt =====
-- Client.cpp, `discover`: a discovery that nobody answers.
use ietf_anima_signaling_pro.Msg.{Msg}
use ietf_anima_signaling_pro.Client.{Client}
