-- ===== src/Alerts/Kept.antt =====
-- What every operation of tools/operational_alert_outbox.py keeps.
use mathlib.Core.Path.{subst}
use ouf_api_gateway.Base.{
  ℕ, ◌≡◌, refl, inl, inr, false, ◌&&◌, String, List, [], ◌∷◌, ◌++◌, ok, arith, All-append,
  Option-cases, Outcome-cases, Bool-cases, string_eq, leb, ok-injective,
}
use ouf_api_gateway.Alerts.Outbox.{
  State, pending, in_flight, is, Delivery, change, find, is_flying, is_flying_to,
}
use ouf_api_gateway.Alerts.Dispatch.{
  Destination, AlertOutcome, finish, settled, land, state_of, OutcomeKind, accepted_kind,
  transient_not_accepted, permanent, unknown_kind, retry_state, retry_at,
}
use ouf_api_gateway.Alerts.Reconcile.{
  renew, renew_exhausted_budget, begin_reconciliation, count_reconciliation, reconcile, reconciled,
  reconciled_state, is_decisive,
}
use ouf_api_gateway.Alerts.Enqueue.{enqueue_current, new_delivery, is_skipped, episode_of}
use ouf_api_gateway.Alerts.Budget.{IsBudgeted}
use ouf_api_gateway.Alerts.Capacity.{count-append}
use ouf_api_gateway.Incidents.Store.{OperationalIncident}
use ouf_api_gateway.Alerts.Machine.{IsBounded, grounded}

land-IsBounded :
    (result : State × ℕ) (o : AlertOutcome) (id : String) (ds : List Delivery)
    → is in_flight result.0 ≡ false
    → IsBounded ds
    → IsBounded (change id (land result o) ds)
unfolding land
land-IsBounded (s, due) o id ds down b = elim (Bool-cases (is pending s)) [
  | inl on ↦
      grounded id (land (s, due) o) ds
        (λ d q w. rw (on, land) (record { within = w.within; leased = λ f. absurd (ground arith) }))
        (λ d q f. absurd (let f' = rw (on, land) at f in ground arith)) (λ d. rw (on, land) refl) b
  | inr off ↦
      grounded id (land (s, due) o) ds
        (λ d q w.
          rw (off, land) (record { within = w.within; leased = λ f. absurd (ground arith) }))
        (λ d q f. absurd (let f' = rw (off, land) at f in ground arith)) (λ d. rw (off, land) refl)
        b
]

state_of_down : (k : OutcomeKind) → is in_flight (state_of k) ≡ false
unfolding is
state_of_down accepted_kind = refl
state_of_down transient_not_accepted = refl
state_of_down permanent = refl
state_of_down unknown_kind = refl

retry_state_down : (due : ℕ) (d : Delivery) → is in_flight (retry_state due d) ≡ false
unfolding is
retry_state_down due d = ground arith

pub settled_down :
    (now factor : ℕ) (d : Delivery) (o : AlertOutcome) (result : State × ℕ)
    → settled now factor d o ≡ ok result
    → is in_flight result.0 ≡ false
unfolding settled
settled_down now factor d o result h = elim (Bool-cases (is pending (state_of o.kind))) [
  | inr off ↦
      let same : (state_of o.kind, now) ≡ result =
        let h' = rw (off, settled) at h in ok-injective h' in
      subst (λ r. is in_flight r.0 ≡ false) same (state_of_down o.kind)
  | inl on ↦ elim (Bool-cases (leb 800 factor && leb factor 1200)) [
    | inr bad ↦ absurd (let h' = rw (on, bad, settled) at h in ground arith)
    | inl good ↦
        let same : (retry_state (retry_at now factor d o) d, retry_at now factor d o) ≡ result =
          let h' = rw (on, good, settled) at h in ok-injective h' in
        subst (λ r. is in_flight r.0 ≡ false) same (retry_state_down (retry_at now factor d o) d)
  ]
]

pub finish-IsBounded :
    (now factor : ℕ) (id token : String) (version : ℕ) (o : AlertOutcome) (ds ds' : List Delivery)
    (s : State)
    → IsBounded ds
    → finish now factor id token version o ds ≡ ok (ds', s)
    → IsBounded ds'
unfolding finish
finish-IsBounded now factor id token version o ds ds' s b h = elim (Option-cases (find id ds)) [
  | inl q ↦ absurd (let h' = rw q at h in ground arith)
  | inr (d, q) ↦ elim (Outcome-cases (settled now factor d o)) [
    | inr (e, p) ↦ absurd (let h' = rw (q, p) at h in ground arith)
    | inl (result, p) ↦
        let h' = rw (q, p) at h in
        let same : change id (land result o) ds ≡ ds' = ground arith in
        subst IsBounded same
          (land-IsBounded result o id ds (settled_down now factor d o result p) b)
  ]
]

pub renew-IsBounded :
    (now : ℕ) (sid id : String) (version : ℕ) (reason : String) (ds ds' : List Delivery)
    → IsBounded ds
    → renew_exhausted_budget now sid id version reason ds ≡ ok ds'
    → IsBounded ds'
unfolding renew_exhausted_budget renew is
renew-IsBounded now sid id version reason ds ds' b h = elim (Option-cases (find id ds)) [
  | inl q ↦ absurd (let h' = rw q at h in ground arith)
  | inr (d, q) ↦
      let h' = rw q at h in
      let same : change id (renew now sid) ds ≡ ds' = ground arith in
      subst IsBounded same (
        grounded id (renew now sid) ds
          (λ x r w. record { within = omega arith; leased = λ f. absurd (ground arith) })
          (λ x r f. absurd (ground arith)) (λ x. refl) b)
]

pub begin-IsBounded :
    (transport_ref : String) (config : Destination) (id : String) (version : ℕ)
    (ds ds' : List Delivery)
    → IsBounded ds
    → begin_reconciliation transport_ref config id version ds ≡ ok ds'
    → IsBounded ds'
unfolding begin_reconciliation count_reconciliation
begin-IsBounded transport_ref config id version ds ds' b h = elim (Option-cases (find id ds)) [
  | inl q ↦ absurd (let h' = rw q at h in ground arith)
  | inr (d, q) ↦
      let h' = rw q at h in
      let same : change id count_reconciliation ds ≡ ds' = ground arith in
      subst IsBounded same (
        grounded id count_reconciliation ds
          (λ x r w. record { within = w.within; leased = w.leased }) (λ x r f. f) (λ x. refl) b)
]

reconciled_down :
    (now : ℕ) (o : AlertOutcome) (d : Delivery) → is in_flight (reconciled_state now o d) ≡ false
unfolding is
reconciled_down now o d = ground arith

pub reconcile-IsBounded :
    (now : ℕ) (id : String) (version : ℕ) (o : AlertOutcome) (ds ds' : List Delivery) (s : State)
    → IsBounded ds
    → reconcile now id version o ds ≡ ok (ds', s)
    → IsBounded ds'
unfolding reconcile reconciled
reconcile-IsBounded now id version o ds ds' s b h = elim (Bool-cases (is_decisive o)) [
  | inr off ↦ let h' = rw off at h in let same : ds ≡ ds' = ground arith in subst IsBounded same b
  | inl on ↦ elim (Option-cases (find id ds)) [
    | inl q ↦ absurd (let h' = rw (on, q) at h in ground arith)
    | inr (d, q) ↦
        let h' = rw (on, q) at h in
        let down = reconciled_down now o d in
        let same : change id (reconciled now (reconciled_state now o d) o) ds ≡ ds' =
          ground arith in
        subst IsBounded same (
          grounded id (reconciled now (reconciled_state now o d) o) ds
            (λ x r w. record { within = w.within; leased = λ f. absurd (ground arith) })
            (λ x r f. absurd (ground arith)) (λ x. refl) b)
  ]
]

append-IsBounded :
    (ds : List Delivery) (d : Delivery)
    → is in_flight d.state ≡ false
    → IsBudgeted d
    → IsBounded ds
    → IsBounded (ds ++ (d ∷ []))
append-IsBounded ds d down w b = record {
  budgeted = All-append IsBudgeted ds (d ∷ []) b.budgeted (w, tt);
  flying = omega (arith, count-append is_flying ds d down, b.flying);
  flying_to = λ destination.
      omega (
        arith,
        count-append (is_flying_to destination) ds d (ground arith),
        b.flying_to destination,
      );
}

pub enqueue-IsBounded :
    (now : ℕ) (delivery_id session_id : String) (item : OperationalIncident)
    (ts : List OperationalIncident) (destination minimum_severity config_hash payload : String)
    (ds ds' : List Delivery)
    → IsBounded ds
    → enqueue_current now delivery_id session_id item ts destination minimum_severity config_hash
        payload ds
      ≡ ok ds'
    → IsBounded ds'
unfolding enqueue_current new_delivery is
enqueue-IsBounded now delivery_id session_id item ts destination minimum_severity config_hash
      payload ds ds' b h =
    elim (Bool-cases (is_skipped item ts destination minimum_severity ds)) [
      | inl on ↦ let h' = rw on at h in let same : ds ≡ ds' = ground arith in subst IsBounded same b
      | inr off ↦
          let h' = rw off at h in
          let new =
            new_delivery now delivery_id session_id item (episode_of item ts) destination
              config_hash payload in
          let same : ds ++ (new ∷ []) ≡ ds' = ground arith in
          subst IsBounded same (
            append-IsBounded ds new refl
              (record { within = omega arith; leased = λ f. absurd (ground arith) }) b)
    ]
