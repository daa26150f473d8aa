-- ===== src/Alerts/Claimed.antt =====
-- What a claim of tools/operational_alert_outbox.py has found.
use mathlib.Core.Path.{subst}
use mathlib.Core.Option.{some-injective}
use ouf_api_gateway.Base.{
  ℕ, ◌+◌, ◌≤◌, ◌≡◌, refl, sym, ap, inl, inr, true, ◌||◌, Option, none, some, String, List, [], ◌∷◌,
  ok, arith, Option-cases, Bool-cases, ◌==◌, ◌≠◌, string_eq, eq_iff, ltb,
}
use ouf_api_gateway.Alerts.Outbox.{Delivery, sweep, change, find, seconds}
use ouf_api_gateway.Alerts.Dispatch.{
  Destination, claimed, claim, launch, take_off, is_due, is_full, fly,
}
use ouf_api_gateway.Alerts.Budget.{find-id}

-- What a claim of a delivery has found.
pub record IsClaimed (now : ℕ) (token transport_ref : String) (config : Destination)
    (previewed : Option String) (ds ds' : List Delivery) (d : Delivery) : Type 0 where
  pub transport : transport_ref ≡ config.transport_ref
  pub named : previewed ≡ some d.delivery_id
  pub swept : find d.delivery_id (sweep now ds) ≡ some d
  pub due : is_due now config.destination_ref d ≡ true
  pub current : d.config_hash ≡ config.config_hash
  pub in_time : now + seconds 5 ≤ d.session.deadline
  pub left : ds' ≡ change d.delivery_id (fly now token) (sweep now ds)

module _ (now : ℕ) (token : String) (config : Destination) where
  take_off-claimed :
      (ds ds' : List Delivery) (x d : Delivery)
      → take_off now token config ds (some x) ≡ (ds', claimed d)
      → (x ≡ d)
        × (d.config_hash ≡ config.config_hash)
        × (now + seconds 5 ≤ d.session.deadline)
        × (ds' ≡ change d.delivery_id (fly now token) ds)
  unfolding take_off
  take_off-claimed ds ds' x d h =
      elim (Bool-cases
        ((x.config_hash ≠ config.config_hash) || ltb x.session.deadline (now + seconds 5))) [
          | inl on ↦ absurd (let h' = rw on at h in ground arith)
          | inr off ↦
              let h' = rw off at h in
              let same : x ≡ d = ground arith in
              let left : change x.delivery_id (fly now token) ds ≡ ds' = ground arith in
              subst
                (λ (y : Delivery).
                  (x ≡ y)
                  × (y.config_hash ≡ config.config_hash)
                  × (now + seconds 5 ≤ y.session.deadline)
                  × (ds' ≡ change y.delivery_id (fly now token) ds))
                same
                (
                  refl,
                  ground (arith, eq_iff x.config_hash config.config_hash),
                  ground arith,
                  sym left,
                )
        ]

  -- The claim of a delivery is the one of the preview, which the sweep has left due.
  launch-claimed :
      (transport_ref : String) (previewed : Option String) (ds ds' : List Delivery) (d : Delivery)
      → transport_ref ≡ config.transport_ref
      → launch now token config previewed (sweep now ds) ≡ (ds', claimed d)
      → IsClaimed now token transport_ref config previewed ds ds' d
  unfolding take_off
  launch-claimed transport_ref none ds ds' d same h = absurd (ground arith)
  launch-claimed transport_ref (some id) ds ds' d same h =
      elim (Bool-cases (is_full config.destination_ref (sweep now ds))) [
        | inl full ↦ absurd (let h' = rw full at h in ground arith)
        | inr free ↦ elim (Option-cases (find id (sweep now ds))) [
          | inl q ↦ absurd (let h' = rw (free, q) at h in ground arith)
          | inr (x, q) ↦ elim (Bool-cases (is_due now config.destination_ref x)) [
            | inr off ↦ absurd (let h' = rw (free, q, off) at h in ground arith)
            | inl due ↦
                let (e, current, in_time, left) =
                  take_off-claimed (sweep now ds) ds' x d (let h' = rw (free, q, due) at h in h') in
                let at = subst (λ (y : Delivery). find id (sweep now ds) ≡ some y) e q in
                let own = find-id id (sweep now ds) d at in
                record {
                  transport = same;
                  named = ap some (sym own);
                  swept = subst (λ y. find y (sweep now ds) ≡ some d) (sym own) at;
                  due = subst (λ (y : Delivery). is_due now config.destination_ref y ≡ true) e due;
                  current = current;
                  in_time = in_time;
                  left = left;
                }
          ]
        ]
      ]

  pub claim-claimed :
      (transport_ref : String) (previewed : Option String) (ds ds' : List Delivery) (d : Delivery)
      → claim now token transport_ref config previewed ds ≡ ok (ds', claimed d)
      → IsClaimed now token transport_ref config previewed ds ds' d
  unfolding claim
  claim-claimed transport_ref previewed ds ds' d h =
      launch-claimed transport_ref previewed ds ds' d
        (ground (arith, eq_iff transport_ref config.transport_ref)) (ground arith)

pub find-change :
    (f : Delivery → Delivery) (id : String) (ds : List Delivery) (d : Delivery)
    → (f d).delivery_id ≡ d.delivery_id
    → find id ds ≡ some d
    → find id (change id f ds) ≡ some (f d)
unfolding find change
find-change f id [] d same h = absurd (ground arith)
find-change f id (x ∷ ds) d same h = elim (Bool-cases (x.delivery_id == id)) [
  | inl on ↦
      let e : x ≡ d = some-injective x d (let h' = rw on at h in h') in
      let on' : ((f d).delivery_id == id) ≡ true =
        subst (λ y. (y == id) ≡ true) (sym same)
          (subst (λ (y : Delivery). (y.delivery_id == id) ≡ true) e on) in
      rw (on, e, on') refl
  | inr off ↦ rw (off, off) (find-change f id ds d same (let h' = rw off at h in h'))
]
