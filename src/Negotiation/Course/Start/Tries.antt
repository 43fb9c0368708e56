-- ===== src/Negotiation/Course/Start/Tries.antt =====
-- Client_TCP.cpp, `send_negotiate`: the set-up of the socket comes to an end.
use ietf_anima_signaling_pro.Base.{
  ltb→le, ◌>>=◌, ◌==◌, ltb, if◌then◌else◌, ◌+◌, ◌≤◌, ◌<◌, ◌≡◌, ◌⊎◌, inl, inr, refl, ap, List, [],
  ◌∷◌, length, Option, some, Bool, true, false, arith,
}
use ietf_anima_signaling_pro.Errno.{is_success}
use ietf_anima_signaling_pro.Pdu.{Descriptor}
use ietf_anima_signaling_pro.Pdu.Sockets.{Converted}
use ietf_anima_signaling_pro.Client.{Client, max_try_times}
use ietf_anima_signaling_pro.Negotiation.Course.Start.{tcp_init, retry_init, set_up_tcp}

-- After the loop: the count was reset by a success, or the tries are used up.
abbrev pub Settles : Client → Type 0
Settles c = (c.try_times ≡ 0) ⊎ (max_try_times ≤ c.try_times)

tried :
    (more fine : Bool) (reset c c' : Client) (rest : Option Client)
    → reset.try_times ≡ 0
    → (more ≡ false → max_try_times ≤ c.try_times)
    → rest ≡ some c'
    → Settles c'
    → (r : Client) × ((if more then (if fine then some reset else rest) else some c) ≡ some r)
      × Settles r
tried false fine reset c c' rest z full p q = (c, refl, inr (full refl))
tried true true reset c c' rest z full p q = (reset, refl, inl z)
tried true false reset c c' rest z full p q = (c', p, q)

retry_init-Settles :
    {Ip : Type 0} (sock : Descriptor) (conversions : List (Converted Ip)) (c : Client)
    → max_try_times ≤ c.try_times + length conversions
    → (c' : Client) × (retry_init sock conversions c ≡ some c') × Settles c'
unfolding retry_init
retry_init-Settles sock [] c h = (c, ground (arith, h), inr (omega (arith, h)))
retry_init-Settles sock (conversion ∷ more) c h =
    let c1 = (tcp_init sock conversion c).1 in
    let fine = is_success (tcp_init sock conversion c).0 in
    let (c', settled, q) =
      retry_init-Settles sock more (record c1 { try_times = c1.try_times + 1 })
        (omega (arith, h)) in
    tried (ltb c.try_times max_try_times) fine (record c1 { try_times = 0 }) c c' _ refl
      (λ full. ltb→le c.try_times max_try_times full) settled q

reported :
    (fine : Bool) (c c' : Client) (rest : Option Client)
    → rest ≡ some c'
    → Settles c'
    → (answered : Bool) × (r : Client) × (if◌then◌else◌ {A = Option (Bool × Client)} fine
          (some (true, c))
          (rest >>= λ r. some (r.try_times == 0, r))
        ≡ some (answered, r))
      × ((answered ≡ true) ⊎ (max_try_times ≤ r.try_times))
reported true c c' rest p q = (true, c, refl, inl refl)
reported false c c' rest p (inl z) = (
  true,
  c',
  rw p (ap (λ b. some (b, c')) {x = c'.try_times == 0} {y = true} (ground (arith, z))),
  inl refl,
)
reported false c c' rest p (inr used) = (c'.try_times == 0, c', rw p refl, inr used)

-- Six answers of `inet_pton` are enough for the set-up of the socket, whatever they are and however
-- many tries the client has counted: it comes to an end, and the server is taken to have answered, or
-- the five tries are used up.
pub set_up_tcp-Settles :
    {Ip : Type 0} (sock : Descriptor) (conversions : List (Converted Ip)) (c : Client)
    → max_try_times < length conversions
    → (answered : Bool) × (c' : Client) × (set_up_tcp sock conversions c ≡ some (answered, c'))
      × ((answered ≡ true) ⊎ (max_try_times ≤ c'.try_times))
unfolding set_up_tcp
set_up_tcp-Settles sock [] c h = absurd (omega (arith, h))
set_up_tcp-Settles sock (conversion ∷ more) c h =
    let c1 = (tcp_init sock conversion c).1 in
    let (c', settled, q) = retry_init-Settles sock more c1 (omega (arith, h)) in
    reported (is_success (tcp_init sock conversion c).0) c1 c' _ settled q
