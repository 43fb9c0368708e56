-- ===== src/Server/Sessions/Delivery.antt =====
-- Server.cpp, `distribute` and `clear_when_session_end`: the map before and after.
use ietf_anima_signaling_pro.Base.{
  memcpy, subst, sym, >>=-eq-some, ℕ, ◌≤◌, ◌≡◌, refl, ap, ◌∙◌, ◌==◌, if◌then◌else◌, Endian, List,
  [], ◌∷◌, length, Option, none, some, true, arith, ◌⊎◌, inl, inr, Bool-cases, memcpy_overflow,
  memcpy_overread,
}
use ietf_anima_signaling_pro.Errno.{ok}
use ietf_anima_signaling_pro.Msg.{MsgType, Decoded, max_string_length}
use ietf_anima_signaling_pro.Pdu.{Descriptor, Reading, read_pdu}
use ietf_anima_signaling_pro.Pdu.Transfer.{read_pdu-data_size}
use ietf_anima_signaling_pro.Content.{Content}
use ietf_anima_signaling_pro.Session.{Session, queue_push, new_session}
use ietf_anima_signaling_pro.Server.Sessions.{
  SessionMap, insert, find_and_push, clear_sessions, Delivered, old_session, queued, launched,
  new_session_expected, is_request, distribute, copy_content, start_session, hand_over,
}
use ietf_anima_signaling_pro.Server.Sessions.Map.{
  IsRising, lookup, lookup-insert, insert-IsRising, find_and_push-none, find_and_push-old,
  find_and_push-queued, replace, lookup-replace, replace-IsRising,
}

-- What a message does to the session of its id: the rule for new and old sessions.
abbrev pub deliver : Descriptor → ℕ → Content → Option Session → Option Session × Delivered
deliver tcp_sock id c none =
    if is_request c.type
    then (some (new_session tcp_sock id c), launched)
    else (none, new_session_expected)
deliver tcp_sock id c (some s) =
    if is_request c.type then (some s, old_session) else (some (queue_push s c), queued)

-- The map after a delivery: the entry of the id by the rule, every other entry as before.
pub record Delivers (id : ℕ) (m m' : SessionMap) (after : Option Session) : Type 0 where
  pub entry : (j : ℕ) → lookup j m' ≡ (if id == j then after else lookup j m)
  pub rising : IsRising 0 m'

same_entry :
    (id j : ℕ) (m : SessionMap) (o : Option Session)
    → lookup id m ≡ o
    → lookup j m ≡ (if id == j then o else lookup j m)
same_entry id j m o h = elim (Bool-cases (id == j)) [
  | inl same ↦ rw same (ap (λ k. lookup k m) {x = j} {y = id} (ground arith) ∙ h)
  | inr other ↦ rw other refl
]

-- The type of the content is that of the message.
copy_content-type :
    (stack : List ℕ) (type : MsgType) (buffer : List ℕ) (n : ℕ) (c : Content)
    → copy_content stack type buffer n ≡ some c
    → c.type ≡ type
unfolding copy_content
copy_content-type stack type buffer n c h =
    let (w, hw, e) = >>=-eq-some (memcpy stack buffer n) _ h in
    ap (λ o. elim o [ none ↦ type | some d ↦ d.type ]) (sym e)

hand_over-found :
    (tcp_sock : Descriptor) (id : ℕ) (type : MsgType) (c : Content) (m : SessionMap)
    (r : SessionMap × Delivered)
    → find_and_push id type c m ≡ some r
    → hand_over tcp_sock id type c m ≡ r
unfolding hand_over
hand_over-found tcp_sock id type c m r h = cc

hand_over-new :
    (tcp_sock : Descriptor) (id : ℕ) (type : MsgType) (c : Content) (m : SessionMap)
    → find_and_push id type c m ≡ none
    → hand_over tcp_sock id type c m ≡ start_session tcp_sock id type c m
unfolding hand_over
hand_over-new tcp_sock id type c m h = cc

-- What the loop and the code after it return is what the rule says, by what the map holds.
finish :
    (tcp_sock : Descriptor) (m : SessionMap) (id : ℕ) (c : Content) (o : Option Session)
    → IsRising 0 m
    → lookup id m ≡ o
    → (m' : SessionMap) × (hand_over tcp_sock id c.type c m ≡ (m', (deliver tcp_sock id c o).1))
      × Delivers id m m' (deliver tcp_sock id c o).0
unfolding start_session
finish tcp_sock m id c none r h = elim (Bool-cases (is_request c.type)) [
  | inl first ↦ (
    insert id (new_session tcp_sock id c) m,
    hand_over-new tcp_sock id c.type c m (find_and_push-none id c.type c m h) ∙ rw first refl,
    record {
      entry = λ j. rw first (lookup-insert id j (new_session tcp_sock id c) m h);
      rising = insert-IsRising 0 id (new_session tcp_sock id c) m (omega arith) r;
    },
  )
  | inr later ↦ (
    m,
    hand_over-new tcp_sock id c.type c m (find_and_push-none id c.type c m h) ∙ rw later refl,
    record { entry = λ j. rw later (same_entry id j m none h); rising = r },
  )
]
finish tcp_sock m id c (some s) r h = elim (Bool-cases (is_request c.type)) [
  | inl first ↦ (
    m,
    rw first (hand_over-found tcp_sock id c.type c m _ (find_and_push-old id c.type c m s h first)),
    record { entry = λ j. rw first (same_entry id j m (some s) h); rising = r },
  )
  | inr later ↦ (
    replace id (queue_push s c) m,
    rw later
        (hand_over-found tcp_sock id c.type c m _ (find_and_push-queued id c.type c m s h later)),
    record {
      entry = λ j. rw later (lookup-replace id j (queue_push s c) s m h);
      rising = replace-IsRising 0 id (queue_push s c) m r;
    },
  )
]

-- `distribute` from its loop on implements the rule for any content, on a map whose keys are in
-- strict order: its answer is that of the rule for the session that the map holds under the id, the
-- entry of the id becomes what the rule says, no other entry changes, and the keys stay in strict
-- order. The copy of the message before the loop is not part of this.
pub hand_over-Delivers :
    (tcp_sock : Descriptor) (m : SessionMap) (id : ℕ) (c : Content)
    → IsRising 0 m
    → ((hand_over tcp_sock id c.type c m).1 ≡ (deliver tcp_sock id c (lookup id m)).1)
      × Delivers id m (hand_over tcp_sock id c.type c m).0 (deliver tcp_sock id c (lookup id m)).0
hand_over-Delivers tcp_sock m id c r =
    let (m', e, d) = finish tcp_sock m id c (lookup id m) r refl in
    (
      ap (λ (x : SessionMap × Delivered). x.1) e,
      subst
          (λ (x : SessionMap × Delivered).
            Delivers id m x.0 (deliver tcp_sock id c (lookup id m)).0)
          (sym e) d,
    )

-- The whole of `distribute`, where the content could be copied.
pub distribute-Delivers :
    (stack : List ℕ) (tcp_sock : Descriptor) (m : SessionMap) (id : ℕ) (buffer : List ℕ) (n : ℕ)
    (type : MsgType) (c : Content)
    → IsRising 0 m
    → copy_content stack type buffer n ≡ some c
    → (m' : SessionMap) × (distribute stack tcp_sock m id buffer n type
        ≡ some (m', (deliver tcp_sock id c (lookup id m)).1))
      × Delivers id m m' (deliver tcp_sock id c (lookup id m)).0
unfolding distribute
distribute-Delivers stack tcp_sock m id buffer n type c r h =
    let (m', e, d) = finish tcp_sock m id c (lookup id m) r refl in
    (m', rw (h, sym (copy_content-type stack type buffer n c h)) (ap some e), d)

-- What `read_pdu` decodes never comes through `distribute`: the size that it reports is one more than
-- the content's array, and than the buffer, whatever the map and the message are.
pub distribute_decoded :
    (e : Endian) (tcp_sock : Descriptor) (read : Reading) (buffer : List ℕ) (d : Decoded)
    (stack : List ℕ) (m : SessionMap)
    → read_pdu e tcp_sock read buffer ≡ ok d
    → length stack ≤ max_string_length ⊎ length d.content ≤ max_string_length
    → distribute stack tcp_sock m d.session_id d.content d.data_size d.type ≡ none
unfolding distribute copy_content
distribute_decoded e tcp_sock read buffer d stack m h room =
    let size = read_pdu-data_size e tcp_sock read buffer d h in
    elim room [
      | inl p ↦ rw (size, memcpy_overflow stack d.content 1001 (omega (arith, p))) refl
      | inr p ↦ rw (size, memcpy_overread stack d.content 1001 (omega (arith, p))) refl
    ]

-- `clear_when_session_end`, where the erased iterator still leads to the next session: it ends,
-- the ended session is not in the map, every other is as before.
pub clear_sessions-lookup :
    (id : ℕ) (m : SessionMap)
    → (m' : SessionMap) × (clear_sessions true id m ≡ some m')
      × ((j : ℕ) → lookup j m' ≡ (if id == j then none else lookup j m))
unfolding clear_sessions lookup
clear_sessions-lookup id [] = ([], refl, λ j. ground arith)
clear_sessions-lookup id ((i, s) ∷ m) =
    let (m', e, l) = clear_sessions-lookup id m in
    elim (Bool-cases (i == id)) [
      | inl same ↦ (m', rw same e, λ j. rw (l j) (ground arith))
      | inr other ↦ ((i, s) ∷ m', rw (other, e) refl, λ j. ground (arith, l j))
    ]
