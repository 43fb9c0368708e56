-- ===== src/Server/Setup/Interfaces.antt =====
-- Server.cpp: the names of the interfaces, as strings, and the answer to a discovery after the set-up.
use mathlib.Core.Option.{some-injective}
use ietf_anima_signaling_pro.Base.{
  ap, subst, >>=-eq-some, ◌∙◌, sym, ◌>>=◌, ℕ, zero, suc, ◌<◌, ◌==◌, ◌||◌, if◌then◌else◌, ◌≡◌, ◌≢◌,
  List, [], ◌∷◌, length, IsText, Option, none, some, arith,
}
use ietf_anima_signaling_pro.Server.Turn.{interface_at}
use ietf_anima_signaling_pro.Server.Setup.{
  IfAddr, no_address, other_family, inet6, cut_scope, interface_names,
}

-- Texts without a '%'.
abbrev pub IsName : List ℕ → Type 0
IsName [] = Unit {0}
IsName (c ∷ s) = (0 < c) × (c ≢ 37) × IsName s

-- The loop's step, for a rest `o`.
step-eq-some :
    (c b : ℕ) (s : List ℕ) (o : Option (List ℕ))
    → (if (c == 0) || (c == 37) then some [] else (o >>= λ t. some (c ∷ t))) ≡ some (b ∷ s)
    → (b ≡ c) × (0 < c) × (c ≢ 37) × (o ≡ some s)
step-eq-some c b s none h = absurd (ground arith)
step-eq-some c b s (some t) h = (ground arith, ground arith, ground arith, ground arith)

cut_scope-IsName : (host s : List ℕ) → cut_scope host ≡ some s → IsName s × (length s < length host)
unfolding cut_scope
cut_scope-IsName [] s h = cc
cut_scope-IsName (c ∷ host) [] h = (tt, omega arith)
cut_scope-IsName (c ∷ host) (b ∷ s) h =
    let (same, pos, other, rest) = step-eq-some c b s (cut_scope host) h in
    let (name, l) = cut_scope-IsName host s rest in
    ((omega (arith, same, pos), λ h'. other (sym same ∙ h'), name), omega (arith, l))

interface_at-IsName :
    (t s : List ℕ) (rest : List (List ℕ)) (i : ℕ)
    → ((j : ℕ) → interface_at j rest ≡ some s → IsName s)
    → IsName t
    → interface_at i (t ∷ rest) ≡ some s
    → IsName s
unfolding interface_at
interface_at-IsName t s rest zero later name at = subst IsName (some-injective _ _ at) name
interface_at-IsName t s rest (suc j) later name at = later j at

pub interface_names-IsName :
    (entries : List IfAddr) (names : List (List ℕ)) (i : ℕ) (s : List ℕ)
    → interface_names entries ≡ some names
    → interface_at i names ≡ some s
    → IsName s
unfolding interface_names interface_at
interface_names-IsName [] [] i s h at = cc
interface_names-IsName [] (n ∷ names) i s h at = cc
interface_names-IsName (no_address ∷ more) names i s h at =
    interface_names-IsName more names i s h at
interface_names-IsName (other_family ∷ more) names i s h at =
    interface_names-IsName more names i s h at
interface_names-IsName (inet6 none ∷ more) names i s h at =
    interface_names-IsName more names i s h at
interface_names-IsName (inet6 (some host) ∷ more) names i s h at =
    let (t, cut, h') = >>=-eq-some (cut_scope host) _ h in
    let (rest, g, same) = >>=-eq-some (interface_names more) _ h' in
    interface_at-IsName t s rest i (λ j. interface_names-IsName more rest j s g)
      (cut_scope-IsName host t cut).0 (ap (λ o. o >>= interface_at i) same ∙ at)

pub IsName-IsText : (s : List ℕ) → IsName s → IsText s
IsName-IsText [] p = tt
IsName-IsText (c ∷ s) p = (p.0, IsName-IsText s p.2)
