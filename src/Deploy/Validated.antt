-- ===== src/Deploy/Validated.antt =====
-- What the validation of ops/apisix/deploy_internal_m2m_routes.py settles about the routes' ids.
use mathlib.Core.Path.{subst}
use ouf_api_gateway.Base.{
  beq_refl, Bool, true, false, not, Option, none, some, String, List, [], ◌∷◌, ◌==◌, string_eq, ◌≡◌,
  refl, sym, Outcome, ok, raised, ok-injective, Bool-cases, inl, inr, ◌∙◌, arith, All, contains,
  eq_iff,
}
use ouf_api_gateway.Document.{Value, is_dict, text_of}
use ouf_api_gateway.Document.Names.{is_name}
use ouf_api_gateway.Deploy.{DeployError}
use ouf_api_gateway.Deploy.Routes.{
  check_governed, ◌>>>◌, read, named, as_text, refuse, text_at, validate_route, validate_each,
}

pub then-ok :
    {A B : Type 0} (r : Outcome DeployError A) (f : A → Outcome DeployError B) {b : B}
    → (r >>> f) ≡ ok b
    → (a : A) × (r ≡ ok a) × (f a ≡ ok b)
then-ok (ok a) f h = (a, refl, h)
then-ok (raised e) f h = absurd (ground arith)

pub refuse-ok : (b : Bool) (e : String) → refuse b e ≡ ok tt → b ≡ false
refuse-ok true e h = absurd (ground arith)
refuse-ok false e h = refl

named-as_text : (o : Option String) (s : String) → named o ≡ ok s → as_text o ≡ ok s
named-as_text none s h = absurd (ground arith)
named-as_text (some t) s h = elim (Bool-cases (is_name t)) [
  | inl good ↦ let h' = rw good at h in h'
  | inr bad ↦ absurd (let h' = rw bad at h in ground arith)
]

read-text_at :
    (route v : Value) (id : String)
    → read "id" route ≡ ok v
    → as_text (text_of v) ≡ ok id
    → text_at "id" route ≡ ok id
read-text_at route v id q h = rw q h

-- A route that is accepted has the id that is added, and no route before it had it.
pub validate_route-id :
    (seen : List String) (route : Value) (id : String)
    → validate_route seen route ≡ ok id
    → (text_at "id" route ≡ ok id) × (contains seen id ≡ false)
unfolding validate_route
validate_route-id seen route id h =
    let dict = then-ok (refuse (not (is_dict route)) _) _ h in
    let v = then-ok (read "id" route) _ dict.2 in
    let own = then-ok (named (text_of v.0)) _ v.2 in
    let fresh = then-ok (refuse (contains seen own.0) _) _ own.2 in
    let governed = then-ok (check_governed route) _ fresh.2 in
    let same : own.0 ≡ id = ok-injective governed.2 in
    subst (λ k. (text_at "id" route ≡ ok k) × (contains seen k ≡ false)) same
      (read-text_at route v.0 own.0 v.1 (named-as_text _ own.0 own.1), refuse-ok _ _ fresh.1)

-- A name that none of the routes has.
abbrev pub IsOther : List Value → String → Type 0
IsOther routes j =
    All (λ (r : Value). (id : String) → text_at "id" r ≡ ok id → (id == j) ≡ false) routes

-- The routes' ids differ.
abbrev pub HaveOwnIds : List Value → Type 0
HaveOwnIds [] = Unit
HaveOwnIds (r ∷ rs) = ((id : String) → text_at "id" r ≡ ok id → IsOther rs id) × HaveOwnIds rs

unnamed :
    (seen : List String) (id j : String)
    → contains seen id ≡ false
    → contains seen j ≡ true
    → (id == j) ≡ false
unnamed seen id j fresh h = elim (Bool-cases (id == j)) [
  | inl same ↦ absurd (
      let q : contains seen j ≡ false =
        subst (λ k. contains seen k ≡ false) ((eq_iff id j).0 same) fresh in
      ground arith)
  | inr other ↦ other
]

is_own :
    (route : Value) (id j : String) (P : Bool → Type 0)
    → text_at "id" route ≡ ok id
    → P (id == j)
    → (k : String) → text_at "id" route ≡ ok k
    → P (k == j)
is_own route id j P q p k q' = subst (λ i. P (i == j)) (ok-injective (sym q ∙ q')) p

seen-IsOther :
    (seen : List String) (routes : List Value) (ids : List String)
    → validate_each seen routes ≡ ok ids
    → (j : String) → contains seen j ≡ true
    → IsOther routes j × (contains ids j ≡ true)
unfolding validate_each
seen-IsOther seen [] ids h j named_before =
    (tt, subst (λ k. contains k j ≡ true) (ok-injective h) named_before)
seen-IsOther seen (r ∷ rs) ids h j named_before =
    let one = then-ok (validate_route seen r) _ h in
    let q = validate_route-id seen r one.0 one.1 in
    let rest = seen-IsOther (one.0 ∷ seen) rs ids one.2 j (ground arith) in
    (
      (is_own r one.0 j (λ b. b ≡ false) q.0 (unnamed seen one.0 j q.1 named_before), rest.0),
      rest.1,
    )

pub validate_each-IsOther :
    (seen : List String) (routes : List Value) (ids : List String)
    → validate_each seen routes ≡ ok ids
    → (j : String) → contains ids j ≡ false
    → IsOther routes j
unfolding validate_each
validate_each-IsOther seen [] ids h j unlisted = tt
validate_each-IsOther seen (r ∷ rs) ids h j unlisted =
    let one = then-ok (validate_route seen r) _ h in
    let q = validate_route-id seen r one.0 one.1 in
    let listed = seen-IsOther (one.0 ∷ seen) rs ids one.2 one.0 (ground (arith, beq_refl one.0)) in
    (
      is_own r one.0 j (λ b. b ≡ false) q.0
          (elim (Bool-cases (one.0 == j)) [
            | inl same ↦ absurd (
                let p : contains ids j ≡ true =
                  subst (λ k. contains ids k ≡ true) ((eq_iff one.0 j).0 same) listed.1 in
                ground arith)
            | inr other ↦ other
          ]),
      validate_each-IsOther (one.0 ∷ seen) rs ids one.2 j unlisted,
    )

pub validate_each-HaveOwnIds :
    (seen : List String) (routes : List Value) (ids : List String)
    → validate_each seen routes ≡ ok ids
    → HaveOwnIds routes
unfolding validate_each
validate_each-HaveOwnIds seen [] ids h = tt
validate_each-HaveOwnIds seen (r ∷ rs) ids h =
    let one = then-ok (validate_route seen r) _ h in
    let q = validate_route-id seen r one.0 one.1 in
    let listed = seen-IsOther (one.0 ∷ seen) rs ids one.2 one.0 (ground (arith, beq_refl one.0)) in
    (
      λ k q'. subst (λ i. IsOther rs i) (ok-injective (sym q.0 ∙ q')) listed.0,
      validate_each-HaveOwnIds (one.0 ∷ seen) rs ids one.2,
    )

pub validate_each-unlisted :
    (seen : List String) (routes : List Value) (ids : List String)
    → validate_each seen routes ≡ ok ids
    → (j : String) → contains seen j ≡ false
    → IsOther routes j
    → contains ids j ≡ false
unfolding validate_each
validate_each-unlisted seen [] ids h j unseen other =
    subst (λ k. contains k j ≡ false) (ok-injective h) unseen
validate_each-unlisted seen (r ∷ rs) ids h j unseen other =
    let one = then-ok (validate_route seen r) _ h in
    let q = validate_route-id seen r one.0 one.1 in
    let apart : (one.0 == j) ≡ false = other.0 one.0 q.0 in
    validate_each-unlisted (one.0 ∷ seen) rs ids one.2 j
      (ground (arith, eq_iff one.0 j, eq_iff j one.0)) other.1
