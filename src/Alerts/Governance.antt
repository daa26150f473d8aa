-- ===== src/Alerts/Governance.antt =====
-- Who may configure an alert destination, and what a configuration keeps.
use mathlib.Core.Path.{subst}
use ouf_api_gateway.Base.{
  ◌≤◌, ◌≡◌, refl, inl, inr, Bool, true, Option, none, some, String, List, ◌∷◌, ok, arith,
  Outcome-cases, Option-cases, Bool-cases, length, ◌==◌, string_eq, eq_iff, eq_refl,
}
use ouf_api_gateway.Alerts.Owner.{
  Grant, AlertDestination, Configured, Outbox, find_destination, is_same_tenant, check_grant,
  store_destination, configure,
}

check_grant-grant :
    (existing : Option Configured) (grant : Option (Option Grant)) (g : Grant)
    → check_grant true existing grant ≡ ok g
    → (grant ≡ some (some g))
      × (g.actor ≡ "HUMAN")
      × (g.allowed ≡ true)
      × (is_same_tenant g existing ≡ true)
unfolding check_grant
check_grant-grant existing none g h = absurd (ground arith)
check_grant-grant existing (some none) g h = absurd (ground arith)
check_grant-grant existing (some (some x)) g h =
    let same : x ≡ g = ground arith in
    subst
      (λ y.
        (some (some x) ≡ some (some y))
        × (y.actor ≡ "HUMAN")
        × (y.allowed ≡ true)
        × (is_same_tenant y existing ≡ true))
      same (refl, ground (arith, eq_iff x.actor "HUMAN"), ground arith, ground arith)

find-cons :
    (c : Configured) (cs : List Configured) (ref : String) (old : Configured)
    → find_destination c.destination.destination_ref cs ≡ none
    → find_destination ref cs ≡ some old
    → find_destination ref (c ∷ cs) ≡ some old
unfolding find_destination
find-cons c cs ref old free h = elim (Bool-cases (c.destination.destination_ref == ref)) [
  | inr off ↦ rw off h
  | inl on ↦
      let e = (eq_iff c.destination.destination_ref ref).0 on in
      let free' = subst (λ x. find_destination x cs ≡ none) e free in absurd (ground arith)
]

stored-kept :
    (hash : String) (d : AlertDestination) (g : Grant) (o o' : Outbox)
    → length o.destinations ≤ 32
    → store_destination hash d g o (find_destination d.destination_ref o.destinations) ≡ ok o'
    → (length o'.destinations ≤ 32)
      × ((ref : String) (c : Configured)
          → find_destination ref o.destinations ≡ some c
          → find_destination ref o'.destinations ≡ some c)
stored-kept hash d g o o' few h =
    elim (Option-cases (find_destination d.destination_ref o.destinations)) [
      | inr (old, q) ↦
          let h' = rw q at h in
          let same : o ≡ o' = ground arith in
          subst
            (λ x.
              (length x.destinations ≤ 32)
              × ((ref : String) (c : Configured)
                  → find_destination ref o.destinations ≡ some c
                  → find_destination ref x.destinations ≡ some c))
            same (few, λ ref c e. e)
      | inl q ↦
          let h' = rw q at h in
          let new : Configured = record {
            destination = d;
            config_hash = hash;
            authority_tenant = g.tenant;
          } in
          let same : new ∷ o.destinations ≡ o'.destinations = ground arith in
          subst
            (λ x.
              (length x ≤ 32)
              × ((ref : String) (c : Configured)
                  → find_destination ref o.destinations ≡ some c
                  → find_destination ref x ≡ some c))
            same (ground arith, λ ref c e. find-cons new o.destinations ref c q e)
    ]

-- The destination is there with the fingerprint of the call.
stored-there :
    (hash : String) (d : AlertDestination) (g : Grant) (o o' : Outbox)
    → store_destination hash d g o (find_destination d.destination_ref o.destinations) ≡ ok o'
    → (c : Configured) × (find_destination d.destination_ref o'.destinations ≡ some c)
      × (c.config_hash ≡ hash)
unfolding find_destination
stored-there hash d g o o' h =
    elim (Option-cases (find_destination d.destination_ref o.destinations)) [
      | inr (old, q) ↦
          let h' = rw q at h in
          let same : o ≡ o' = ground arith in
          (
            old,
            subst (λ (x : Outbox). find_destination d.destination_ref x.destinations ≡ some old)
                same q,
            ground (arith, eq_iff old.config_hash hash),
          )
      | inl q ↦
          let h' = rw q at h in
          let new : Configured = record {
            destination = d;
            config_hash = hash;
            authority_tenant = g.tenant;
          } in
          let same : new ∷ o.destinations ≡ o'.destinations = ground arith in
          (
            new,
            subst (λ x. find_destination d.destination_ref x ≡ some new) same
                (rw (eq_refl d.destination_ref) refl),
            refl,
          )
    ]

-- What a configuration that goes through has been granted, on the outbox `o`, and what it keeps of
-- the outbox `b` of its transaction.
pub record IsGoverned (hash : String) (grant : Option (Option Grant)) (d : AlertDestination)
    (o b o' : Outbox) : Type 0 where
  pub granted : Grant
  pub answer : grant ≡ some (some granted)
  pub human : granted.actor ≡ "HUMAN"
  pub allowed : granted.allowed ≡ true
  pub policy : granted.policy_ref ≡ d.policy_ref
  pub tenant : is_same_tenant granted (find_destination d.destination_ref o.destinations) ≡ true
  pub there :
      (c : Configured) × (find_destination d.destination_ref o'.destinations ≡ some c)
      × (c.config_hash ≡ hash)
  pub few : length o'.destinations ≤ 32
  pub kept :
      (ref : String) (c : Configured)
      → find_destination ref b.destinations ≡ some c
      → find_destination ref o'.destinations ≡ some c

-- Whatever other workers do between the authorization and the transaction, a configuration goes
-- through only where the host's answer allows it for a human under the policy of the destination,
-- and in the tenant of the destination, if that was configured when the host was asked. It leaves the
-- destination with the fingerprint of the call, changes no destination that the transaction finds,
-- and keeps their number at most 32.
pub configure-IsGoverned :
    (is_reference : String → Bool) (hash : String) (grant : Option (Option Grant))
    (between : Outbox → Outbox) (d : AlertDestination) (o o' : Outbox)
    → length (between o).destinations ≤ 32
    → configure is_reference hash grant between d o ≡ ok o'
    → IsGoverned hash grant d o (between o) o'
unfolding configure
configure-IsGoverned is_reference hash grant between d o o' few h =
    let existing = find_destination d.destination_ref o.destinations in
    elim (Outcome-cases (check_grant true existing grant)) [
      | inr (e, q) ↦ absurd (let h' = rw q at h in ground arith)
      | inl (g, q) ↦
          let h' = rw q at h in
          let (answer, human, allowed, tenant) = check_grant-grant existing grant g q in
          let b = between o in
          let stored : store_destination hash d g b
                (find_destination d.destination_ref b.destinations)
              ≡ ok o' =
            ground arith in
          let (l, k) = stored-kept hash d g b o' few stored in
          record {
            granted = g;
            answer = answer;
            human = human;
            allowed = allowed;
            policy = ground (arith, eq_iff g.policy_ref d.policy_ref);
            tenant = tenant;
            there = stored-there hash d g b o' stored;
            few = l;
            kept = k;
          }
    ]
