-- ===== src/Negotiation/Synchronized.antt =====
-- Client_TCP.cpp, `synchronize`: its request, and how it ends.
use ietf_anima_signaling_pro.Base.{
  Bool-cases, inl, inr, leb, if◌then◌else◌, Option, if_room, ◌∙◌, ◌>>=◌, ℕ, ◌+◌, ◌≤◌, ◌<◌, ◌≡◌,
  refl, ap, u16, Endian, List, ◌∷◌, ◌++◌, length, length-append, length-drop, take_all, drop,
  memcpy, memcpy_fits, strlen_text, IsText, some, false, arith,
}
use ietf_anima_signaling_pro.Errno.{error}
use ietf_anima_signaling_pro.Msg.{max_string_length}
use ietf_anima_signaling_pro.Pdu.{Descriptor}
use ietf_anima_signaling_pro.Pdu.Sockets.{Converted, SockAddr}
use ietf_anima_signaling_pro.GdnpOption.{
  get_value, OptionType, ObjectiveOption, synchronization, objective_parse_bits,
}
use ietf_anima_signaling_pro.GdnpOption.Roundtrip.{with_text}
use ietf_anima_signaling_pro.GdnpOption.Uniform.{objective_text}
use ietf_anima_signaling_pro.Session.Run.{Asa}
use ietf_anima_signaling_pro.Client.{Client, off}
use ietf_anima_signaling_pro.Negotiation.{with_client, configure, Talk}
use ietf_anima_signaling_pro.Negotiation.Course.{ended, undefined, Course}
use ietf_anima_signaling_pro.Negotiation.Course.Start.{
  conclude, store_on_success, known, set_up_tcp, send_negotiate, send_tcp, synchronize_with,
  request_bits, begun, is_broadcast, synchronize,
}

-- The client that `synchronize` sends with.
abbrev pub synchronizing : ℕ → Client → Client
synchronizing random c = record (begun random 1 c) { cur_states = off }

-- The request of the text `u`.
pub request_bits-text :
    (e : Endian) (type : OptionType) (u r local : List ℕ) (loop_count : ℕ)
    → IsText u
    → 0 < length u
    → length u ≤ 994
    → loop_count < 256
    → length local ≡ max_string_length
    → (block : List ℕ) × ((request_bits e type (u ++ 0 ∷ r) loop_count >>= λ q.
          memcpy local q.0 q.1)
        ≡ some block)
      × (length block ≡ max_string_length)
      × ((chunk : List ℕ)
          → objective_parse_bits e chunk block
            ≡ if_room u chunk (with_text type loop_count 0 u (drop (length u) chunk)))
unfolding request_bits
request_bits-text e type u r local loop_count text pos short few size =
    let (bits, printed, l, parsed) =
      objective_text e type loop_count 0 u (0 ∷ r) text pos (omega (arith, short)) few
        (omega arith) in
    let same : u16 (length u) ≡ length u = omega (arith, short) in
    (
      bits ++ drop (length u + 6) local,
      rw
          (
            strlen_text u r text,
            same,
            printed,
            memcpy_fits local bits (length u + 6) (omega (arith, size, short)) (omega (arith, l)),
          )
          (ap (λ x. some (x ++ drop (length u + 6) local))
            (take_all (length u + 6) bits (omega (arith, l)))),
      omega (
        arith,
        l,
        size,
        short,
        length-append bits (drop (length u + 6) local),
        length-drop (length u + 6) local,
      ),
      λ chunk. parsed chunk (drop (length u + 6) local),
    )

-- What goes on with a value that was read into a block.
pub known-if_room :
    (u chunk : List ℕ) (o : ObjectiveOption) (k : ObjectiveOption → Course)
    → known (if_room u chunk o) k ≡ (if leb (length u) (length chunk) then k o else undefined)
known-if_room u chunk o k = elim (Bool-cases (leb (length u) (length chunk))) [
  | inl fits ↦ rw fits refl
  | inr short ↦ rw short refl
]

-- The options of a client whose connection is refused.
synchronize_with-unanswered :
    {Ip : Type 0} (e : Endian) (asa : Asa) (chunk : List ℕ) (sock : Descriptor)
    (conversions : List (Converted Ip)) (t : Talk) (c0 c : Client) (o : Option ObjectiveOption)
    → set_up_tcp sock conversions (record c0 { cur_states = off }) ≡ some (false, c)
    → objective_parse_bits e chunk t.buffer ≡ o
    → synchronize_with e asa chunk sock conversions (with_client t (record c0 { cur_states = off }))
      ≡ known o (λ found.
        ended error
          (configure (get_value found.base) (with_client t (record c { cur_states = off }))))
unfolding synchronize_with send_tcp send_negotiate store_on_success conclude
synchronize_with-unanswered e asa chunk sock conversions t c0 c o refused parsed =
    rw (synchronize_with, send_tcp, send_negotiate, refused)
      (ap
        (λ x. known x (λ o.
          ended error
            (configure (get_value o.base) (with_client t (record c { cur_states = off })))))
        parsed)

module _ {Ip : Type 0} (inet_ntop : Ip → List ℕ) (e : Endian) (asa : Asa) (nego_addr : SockAddr Ip)
    (broadcast : Ip) (u r local chunk : List ℕ) (random : ℕ)
    (other : is_broadcast inet_ntop nego_addr broadcast ≡ some false) (text : IsText u)
    (pos : 0 < length u) (short : length u ≤ 994) (size : length local ≡ max_string_length) where
  -- A client synchronizes a text of 1 to 994 bytes, and its address is not that of the broadcast. If
  -- the connection is not set up after all tries, nothing has been sent, and `synchronize` parses
  -- its own request nevertheless. If the block that `malloc` returns for two bytes has room for the
  -- text (two bytes are all that is promised), it gives the caller's own text to `do_configuration`
  -- and returns ERROR. If not, the parser writes past the block, and what it does is undefined.
  pub synchronize-unanswered :
      (sock : Descriptor) (conversions : List (Converted Ip)) (t : Talk) (c : Client)
      → set_up_tcp sock conversions (synchronizing random t.client) ≡ some (false, c)
      → (v : Talk) × (synchronize inet_ntop e asa nego_addr broadcast
            (u ++ 0 ∷ r)
            random
            local
            chunk
            sock
            conversions
            t
          ≡ (if leb (length u) (length chunk) then ended error v else undefined))
        × (v.handed ≡ t.handed)
        × (v.configured ≡ (u ++ drop (length u) chunk) ∷ t.configured)
  unfolding synchronize get_value
  synchronize-unanswered sock conversions t c refused =
      let (block, printed, l, parsed) =
        request_bits-text e synchronization u r local 1 text pos short (omega arith) size in
      (
        configure (u ++ drop (length u) chunk)
            (record t { client = record c { cur_states = off }; buffer = block }),
        rw (synchronize, other, printed)
            (synchronize_with-unanswered e asa chunk sock conversions (record t { buffer = block })
                (begun random 1 t.client) c _ refused (parsed chunk)
              ∙ known-if_room u chunk _ (λ (found : ObjectiveOption). ended error (
                  configure (get_value found.base)
                    (record t { client = record c { cur_states = off }; buffer = block })))),
        refl,
        refl,
      )
