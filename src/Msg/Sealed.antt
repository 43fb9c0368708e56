-- ===== src/Msg/Sealed.antt =====
-- The header word and the size of what `encode` makes.
use ietf_anima_signaling_pro.Base.{
  ℕ, ◌+◌, ◌*◌, ◌^◌, ◌≤◌, ◌≡◌, List, length, zeros, length-zeros, length-memcpy, arith, memcpy, inl,
  inr, Option-cases,
}
use ietf_anima_signaling_pro.Errno.{ok}
use ietf_anima_signaling_pro.Msg.{
  MsgType, Msg, msg_type_code, max_session_id, max_string_length, session_id_size, encode,
}
use ietf_anima_signaling_pro.Msg.Header.{header-sum}

-- A message of the type and the session, with the size that the protocol gives it.
pub record IsSealed (t : MsgType) (sid : ℕ) (m : Msg) : Type 0 where
  pub in_range : sid ≤ max_session_id
  pub header : m.header ≡ msg_type_code t * 2 ^ session_id_size + sid
  pub size : length m.payload ≡ max_string_length + 1

pub encode-IsSealed :
    (random : ℕ) (t : MsgType) (sid : ℕ) (buffer : List ℕ) (n : ℕ) (m : Msg)
    → encode random t sid buffer n ≡ ok m
    → IsSealed t sid m
unfolding encode
encode-IsSealed random t sid buffer n m h = record {
  in_range = ground arith;
  header = ground (arith, header-sum t sid);
  size = elim (Option-cases (memcpy (zeros 1001) buffer n)) [
    | inl missing ↦ absurd (ground arith)
    | inr (x, copied) ↦
        ground (arith, length-memcpy (zeros 1001) buffer n x copied, length-zeros 1001)
  ];
}
