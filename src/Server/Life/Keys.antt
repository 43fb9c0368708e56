-- ===== src/Server/Life/Keys.antt =====
-- The map of sessions under its keys.
use mathlib.Core.Option.{some-injective}
use ietf_anima_signaling_pro.Base.{
  ℕ, ◌≡◌, refl, sym, ap, ◌∙◌, subst, ◌==◌, List, Option, none, some, arith, Bool-cases,
  Option-cases, inl, inr,
}
use ietf_anima_signaling_pro.Msg.{MsgType}
use ietf_anima_signaling_pro.Pdu.{Descriptor}
use ietf_anima_signaling_pro.Content.{Content}
use ietf_anima_signaling_pro.Session.{Session, queue_push, new_session}
use ietf_anima_signaling_pro.Server.Sessions.{SessionMap, distribute, copy_content, Delivered}
use ietf_anima_signaling_pro.Server.Sessions.Map.{
  lookup, replace, IsRising, lookup-replace, replace-IsRising,
}
use ietf_anima_signaling_pro.Server.Sessions.Delivery.{deliver, Delivers, distribute-Delivers}

-- The keys of the map are in order, and each is the id of its session.
pub record IsMap (m : SessionMap) : Type 0 where
  pub rising : IsRising 0 m
  pub keyed : (id : ℕ) (s : Session) → lookup id m ≡ some s → s.session_id ≡ id

pub deliver-keyed :
    (tcp_sock : Descriptor) (id : ℕ) (c : Content) (o : Option Session) (s : Session)
    → ((t : Session) → o ≡ some t → t.session_id ≡ id)
    → (deliver tcp_sock id c o).0 ≡ some s
    → s.session_id ≡ id
unfolding new_session queue_push
deliver-keyed tcp_sock id c none s f h = ground arith
deliver-keyed tcp_sock id c (some t) s f h = ground (arith, f t refl)

-- An entry that is put in place of another, or in a free place.
pub entry-IsMap :
    (m m' : SessionMap) (id : ℕ) (after : Option Session)
    → IsMap m
    → Delivers id m m' after
    → ((s : Session) → after ≡ some s → s.session_id ≡ id)
    → IsMap m'
entry-IsMap m m' id after i d f = record {
  rising = d.rising;
  keyed = λ j s h. elim (Bool-cases (id == j)) [
    | inl same ↦ f s (ground (arith, d.entry j)) ∙ ground arith
    | inr other ↦ i.keyed j s (ground (arith, d.entry j))
  ];
}

pub replace-Delivers :
    (m : SessionMap) (id : ℕ) (s t : Session)
    → IsMap m
    → lookup id m ≡ some t
    → Delivers id m (replace id s m) (some s)
replace-Delivers m id s t i h = record {
  entry = λ j. lookup-replace id j s t m h;
  rising = replace-IsRising 0 id s m i.rising;
}

pub distribute-IsMap :
    (stack : List ℕ) (tcp_sock : Descriptor) (m : SessionMap) (id : ℕ) (buffer : List ℕ) (n : ℕ)
    (type : MsgType) (r : SessionMap × Delivered)
    → IsMap m
    → distribute stack tcp_sock m id buffer n type ≡ some r
    → IsMap r.0
distribute-IsMap stack tcp_sock m id buffer n type r i h =
    elim (Option-cases (copy_content stack type buffer n)) [
      | inl missing ↦ absurd (unfold distribute in (ground arith))
      | inr (c, copied) ↦
          let (m', e, d) =
            distribute-Delivers stack tcp_sock m id buffer n type c i.rising copied in
          subst IsMap (ap (λ (x : SessionMap × Delivered). x.0) (some-injective _ _ (sym e ∙ h))) (
            entry-IsMap m m' id (deliver tcp_sock id c (lookup id m)).0 i d
              (λ s. deliver-keyed tcp_sock id c (lookup id m) s (i.keyed id)))
    ]
