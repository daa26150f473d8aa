-- ===== src/Owner/Granted.antt =====
-- The decisions of tools/gateway_operational_api.py on the collection and on each row.
use mathlib.Core.Path.{subst}
use ouf_api_gateway.Base.{
  ℕ, Bool, true, false, ◌&&◌, Option, none, some, String, List, [], ◌∷◌, ◌==◌, string_eq, ◌≡◌, refl,
  ap, ◌∙◌, Outcome, ok, raised, ok-injective, if◌then◌else◌, All, arith, Bool-cases, inl, inr, ◌⊎◌,
  length, eq_iff, nat_eq, ◌≤◌,
}
use ouf_api_gateway.Base.Dict.{Dict}
use ouf_api_gateway.Document.{Value, same_value, is_dict, text_of}
use ouf_api_gateway.Incidents.Store.{OperationalIncident}
use ouf_api_gateway.Owner.{
  OwnerFailure, rejected, store_unavailable, owner_unavailable, ◌>>=◌, demand, header, Authorizer,
  answered, installed, tenant_of, decision_of, check_decision, resource_of, at, is_true, is_actor,
  policy_text,
}
use ouf_api_gateway.Owner.Handle.{row_decided, visible_rows}

pub then-ok :
    {A B : Type 0} (m : Outcome OwnerFailure A) (f : A → Outcome OwnerFailure B) {b : B}
    → (m >>= f) ≡ ok b
    → (a : A) × (m ≡ ok a) × (f a ≡ ok b)
unfolding ◌>>=◌
then-ok (ok a) f h = (a, refl, h)
then-ok (raised e) f h = absurd (ground arith)

pub demanded :
    (b : Bool) (status : ℕ) (code : String) (u : Unit {0}) → demand b status code ≡ ok u → b ≡ true
unfolding demand
demanded true status code u h = refl
demanded false status code u h = absurd (ground arith)

-- The host's current policy grants the resource to the verified identity.
pub record IsGranted (owner_authorize : Option Authorizer) (headers : Dict String)
    (capability : String) (incident_id endpoint_ref : Option String) (identity : Value)
    (policy : String) : Type 0 where
  pub authorize : Authorizer
  pub tenant : String
  pub decision : Value
  pub in_place : owner_authorize ≡ some authorize
  pub of_tenant : header "X-OUF-Tenant-ID" headers ≡ some tenant
  pub decided :
      authorize headers capability (resource_of tenant incident_id endpoint_ref) ≡ some decision
  pub allowed : is_true (at "allowed" decision) ≡ true
  pub exact :
      same_value (at "resource" decision) (resource_of tenant incident_id endpoint_ref) ≡ true
  pub own_identity : at "identity" decision ≡ identity
  pub own_policy : text_of (at "policyRef" decision) ≡ some policy

policy_given : (o : Option String) (p : String) → policy_text o ≡ ok p → o ≡ some p
policy_given none p h = absurd (ground arith)
policy_given (some s) p h = elim (Bool-cases (s == "")) [
  | inl blank ↦ absurd (let h' = rw blank at h in ground arith)
  | inr full ↦ ap some (ok-injective (let h' = rw full at h in h'))
]

installed_one : (o : Option Authorizer) (f : Authorizer) → installed o ≡ ok f → o ≡ some f
installed_one none f h = absurd (ground arith)
installed_one (some g) f h = ap some (ok-injective h)

tenant_given : (o : Option String) (t : String) → tenant_of o ≡ ok t → o ≡ some t
tenant_given none t h = absurd (ground arith)
tenant_given (some s) t h = ap some (ok-injective h)

answer_given : (o : Option Value) (v : Value) → answered o ≡ ok v → o ≡ some v
answer_given none v h = absurd (ground arith)
answer_given (some w) v h = ap some (ok-injective h)

and_left : (a b : Bool) → (a && b) ≡ true → a ≡ true
and_left a b h = ground arith

and_right : (a b : Bool) → (a && b) ≡ true → b ≡ true
and_right a b h = ground arith

pair_parts :
    {A B : Type 0} (a c : A) (b d : B)
    → ◌≡◌ {A = Outcome OwnerFailure (A × B)} (ok (a, b)) (ok (c, d))
    → (a ≡ c) × (b ≡ d)
pair_parts {A} {B} a c b d h =
    let q : ◌≡◌ {A = A × B} (a, b) (c, d) = ok-injective h in
    (ap (λ (p : A × B). p.0) q, ap (λ (p : A × B). p.1) q)

pub decision_of-IsGranted :
    (owner_authorize : Option Authorizer) (headers : Dict String) (capability : String)
    (incident_id endpoint_ref : Option String) (identity : Value) (policy : String)
    → decision_of owner_authorize headers capability incident_id endpoint_ref
      ≡ ok (identity, policy)
    → IsGranted owner_authorize headers capability incident_id endpoint_ref identity policy
unfolding decision_of check_decision
decision_of-IsGranted owner_authorize headers capability incident_id endpoint_ref identity policy
      h =
    let authorize = then-ok (installed owner_authorize) _ h in
    let tenant = then-ok (tenant_of (header "X-OUF-Tenant-ID" headers)) _ authorize.2 in
    let decision =
      then-ok
        (answered (authorize.0 headers capability (resource_of tenant.0 incident_id endpoint_ref)))
        _ tenant.2 in
    let granted =
      then-ok (demand (is_dict decision.0 && is_true (at "allowed" decision.0)) _ _) _ decision.2 in
    let identified = then-ok (demand _ _ _) _ granted.2 in
    let actor = then-ok (is_actor (at "actor" (at "identity" decision.0))) _ identified.2 in
    let known = then-ok (demand actor.0 _ _) _ actor.2 in
    let exact =
      then-ok
        (demand
          (same_value (at "resource" decision.0) (resource_of tenant.0 incident_id endpoint_ref)
            && _)
          _ _)
        _ known.2 in
    let named = then-ok (policy_text (text_of (at "policyRef" decision.0))) _ exact.2 in
    let same = pair_parts (at "identity" decision.0) identity named.0 policy named.2 in
    record {
      authorize = authorize.0;
      tenant = tenant.0;
      decision = decision.0;
      in_place = installed_one owner_authorize authorize.0 authorize.1;
      of_tenant = tenant_given _ tenant.0 tenant.1;
      decided = answer_given _ decision.0 decision.1;
      allowed = and_right _ _ (demanded _ _ _ granted.0 granted.1);
      exact = and_left _ _ (demanded _ _ _ exact.0 exact.1);
      own_identity = same.0;
      own_policy = policy_given _ named.0 named.1 ∙ ap some same.1;
    }

-- The row is granted now, to the identity and under the policy of the whole listing.
abbrev pub IsShown :
    Option Authorizer → Dict String → String → Value → String → OperationalIncident → Type 0
IsShown owner_authorize headers capability identity policy r =
    (row_identity : Value) × IsGranted owner_authorize headers capability (some r.incident_id)
      r.endpoint_ref row_identity policy
    × (same_value row_identity identity ≡ true)

pub shown_row :
    (identity : Value) (policy : String) (d : Outcome OwnerFailure (Value × String))
    → row_decided identity policy d ≡ ok true
    → (row_identity : Value) × (d ≡ ok (row_identity, policy))
      × (same_value row_identity identity ≡ true)
shown_row identity policy (ok (i, p)) h = elim (Bool-cases (same_value i identity && p == policy)) [
  | inl same ↦
      let q = (eq_iff p policy).0 (and_right _ _ same) in
      (i, ap (λ k. ok (i, k)) q, and_left _ _ same)
  | inr other ↦ absurd (let h' = rw other at h in ground arith)
]
shown_row identity policy (raised (rejected status code)) h = elim (Bool-cases (status == 403)) [
  | inl denied ↦ absurd (let h' = rw denied at h in ground arith)
  | inr other ↦ absurd (let h' = rw other at h in ground arith)
]
shown_row identity policy (raised store_unavailable) h = absurd (ground arith)
shown_row identity policy (raised owner_unavailable) h = absurd (ground arith)

kept_or_not :
    (b : Bool) (r : OperationalIncident) (rest shown : List OperationalIncident)
    → ◌≡◌ {A = Outcome OwnerFailure (List OperationalIncident)}
        (ok (if b then r ∷ rest else rest))
        (ok shown)
    → ((b ≡ true) × (r ∷ rest ≡ shown)) ⊎ (rest ≡ shown)
kept_or_not true r rest shown h = inl (refl, ok-injective h)
kept_or_not false r rest shown h = inr (ok-injective h)

pub visible_rows-All :
    (Q : OperationalIncident → Type 0) (see : OperationalIncident → Outcome OwnerFailure Bool)
    (rows shown : List OperationalIncident)
    → ((r : OperationalIncident) → see r ≡ ok true → Q r)
    → visible_rows see rows ≡ ok shown
    → All Q shown
unfolding visible_rows
visible_rows-All Q see [] shown each h = subst (All Q) (ok-injective h) tt
visible_rows-All Q see (r ∷ rs) shown each h =
    let keep = then-ok (see r) _ h in
    let rest = then-ok (visible_rows see rs) _ keep.2 in
    let tail = visible_rows-All Q see rs rest.0 each rest.1 in
    elim (kept_or_not keep.0 r rest.0 shown rest.2) [
      | inl (kept, q) ↦ subst (All Q) q (each r (keep.1 ∙ ap ok kept), tail)
      | inr q ↦ subst (All Q) q tail
    ]

-- What is shown is no longer than what was read, and where it is as long, it is the same.
pub visible_rows-whole :
    (see : OperationalIncident → Outcome OwnerFailure Bool) (rows shown : List OperationalIncident)
    → visible_rows see rows ≡ ok shown
    → (length shown ≤ length rows) × (length shown ≡ length rows → shown ≡ rows)
unfolding visible_rows
visible_rows-whole see [] shown h =
    subst (λ (l : List OperationalIncident). (length l ≤ 0) × (length l ≡ 0 → l ≡ []))
      (ok-injective h) (omega arith, λ _. refl)
visible_rows-whole see (r ∷ rs) shown h =
    let keep = then-ok (see r) _ h in
    let rest = then-ok (visible_rows see rs) _ keep.2 in
    let tail = visible_rows-whole see rs rest.0 rest.1 in
    elim (kept_or_not keep.0 r rest.0 shown rest.2) [
      | inl (kept, q) ↦
          subst
            (λ (l : List OperationalIncident).
              (length l ≤ length (r ∷ rs)) × (length l ≡ length (r ∷ rs) → l ≡ r ∷ rs))
            q (omega (arith, tail.0), λ e. ap (λ l. r ∷ l) (tail.1 (omega (arith, e))))
      | inr q ↦
          subst
            (λ (l : List OperationalIncident).
              (length l ≤ length (r ∷ rs)) × (length l ≡ length (r ∷ rs) → l ≡ r ∷ rs))
            q (omega (arith, tail.0), λ e. absurd (omega (arith, tail.0, e)))
    ]
