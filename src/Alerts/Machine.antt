-- ===== src/Alerts/Machine.antt =====
-- The outbox as a state machine: what every operation keeps.
use mathlib.Core.Path.{subst}
use mathlib.Core.Option.{some-injective}
use ouf_api_gateway.Base.{
  ◌≠◌, ℕ, ◌+◌, ◌≤◌, ◌≡◌, refl, sym, ap, ◌∙◌, inl, inr, true, false, ◌||◌, Option, none, some,
  String, List, ok, arith, All, Option-cases, Bool-cases, ◌==◌, string_eq, eq_iff, ltb, count, min,
}
use ouf_api_gateway.Alerts.Outbox.{
  pending, in_flight, is, Delivery, sweep, change, find, is_flying, is_flying_to, seconds,
}
use ouf_api_gateway.Alerts.Dispatch.{
  Destination, Claim, claim, launch, take_off, still_due, find_previewed, is_due, is_full, fly,
  give_up,
}
use ouf_api_gateway.Alerts.Budget.{
  IsBudgeted, HasAttempt, All-change, All-find, find-id, sweep-IsBudgeted, sweep-HasAttempt,
}
use ouf_api_gateway.Alerts.Capacity.{
  count-change, count-change_out, count-sweep_flying, count-sweep_flying_to,
}

pub record IsBounded (ds : List Delivery) : Type 0 where
  pub budgeted : All IsBudgeted ds
  pub flying : count is_flying ds ≤ 16
  pub flying_to : (destination : String) → count (is_flying_to destination) ds ≤ 2

sweep-IsBounded : (now : ℕ) (ds : List Delivery) → IsBounded ds → IsBounded (sweep now ds)
sweep-IsBounded now ds b = record {
  budgeted = sweep-IsBudgeted now ds b.budgeted;
  flying = omega (arith, count-sweep_flying now ds, b.flying);
  flying_to = λ destination.
      omega (arith, count-sweep_flying_to destination now ds, b.flying_to destination);
}

-- A change that lets no delivery fly keeps the bounds.
pub grounded :
    (id : String) (f : Delivery → Delivery) (ds : List Delivery)
    → ((d : Delivery) → find id ds ≡ some d → IsBudgeted d → IsBudgeted (f d))
    → ((d : Delivery)
        → find id ds ≡ some d
        → is in_flight (f d).state ≡ true
        → is in_flight d.state ≡ true)
    → ((d : Delivery) → (f d).destination_ref ≡ d.destination_ref)
    → IsBounded ds
    → IsBounded (change id f ds)
grounded id f ds keeps less same b = record {
  budgeted = All-change IsBudgeted id f ds keeps b.budgeted;
  flying = omega (arith, count-change_out is_flying id f ds less, b.flying);
  flying_to = λ destination. omega (
    arith,
    count-change_out (is_flying_to destination) id f ds (λ d q. λ on.
        let s = same d in
        let flies : is in_flight (f d).state ≡ true = ground arith in
        let l = less d q flies in
        let there : ((f d).destination_ref == destination) ≡ true = ground arith in
        rw l (subst (λ x. (x == destination) ≡ true) s there)),
    b.flying_to destination,
  );
}

module _ (now : ℕ) (token : String) (config : Destination) where
  fly-IsBudgeted :
      (d : Delivery)
      → d.session.attempts + 1 ≤ d.session.max_attempts
      → IsBudgeted (fly now token d)
  unfolding fly
  fly-IsBudgeted d h = record {
    within = h;
    leased = λ f. (token, min (now + seconds 10) d.session.deadline, refl, refl, omega arith);
  }

  rooms :
      (ds : List Delivery)
      → is_full config.destination_ref ds ≡ false
      → (count is_flying ds + 1 ≤ 16) × (count (is_flying_to config.destination_ref) ds + 1 ≤ 2)
  rooms ds h = (ground arith, ground arith)

  fly-IsBounded :
      (ds : List Delivery) (d : Delivery)
      → find d.delivery_id ds ≡ some d
      → d.destination_ref ≡ config.destination_ref
      → is pending d.state ≡ true
      → is_full config.destination_ref ds ≡ false
      → All HasAttempt ds
      → IsBounded ds
      → IsBounded (change d.delivery_id (fly now token) ds)
  unfolding fly
  fly-IsBounded ds d q e p full a b =
      let (room, room_to) = rooms ds full in
      record {
        budgeted =
            All-change IsBudgeted d.delivery_id (fly now token) ds
              (λ x r w.
                let s : d ≡ x = some-injective d x (sym q ∙ r) in
                fly-IsBudgeted x (
                  All-find HasAttempt d.delivery_id ds x a r
                    (subst (λ y. is pending y.state ≡ true) s p)))
              b.budgeted;
        flying = omega (arith, count-change is_flying d.delivery_id (fly now token) ds, room);
        flying_to = λ destination. elim (Bool-cases (d.destination_ref == destination)) [
          | inl on ↦
              let same : destination ≡ config.destination_ref =
                sym ((eq_iff d.destination_ref destination).0 on) ∙ e in
              rw same (
                omega (
                  arith,
                  count-change (is_flying_to config.destination_ref) d.delivery_id (fly now token)
                      ds,
                  room_to,
                ))
          | inr off ↦ omega (
            arith,
            count-change_out (is_flying_to destination) d.delivery_id (fly now token) ds (λ x r f.
                absurd (
                  let s : d ≡ x = some-injective d x (sym q ∙ r) in
                  let off' =
                    subst (λ (y : Delivery). (y.destination_ref == destination) ≡ false) s off in
                  ground arith)),
            b.flying_to destination,
          )
        ];
      }

  give_up-IsBounded :
      (id : String) (ds : List Delivery) → IsBounded ds → IsBounded (change id give_up ds)
  unfolding give_up is
  give_up-IsBounded id ds b =
      grounded id give_up ds
        (λ d q w. record { within = w.within; leased = λ f. absurd (ground arith) })
        (λ d q f. absurd (ground arith)) (λ d. refl) b

  take_off-IsBounded :
      (ds : List Delivery) (d : Delivery)
      → find d.delivery_id ds ≡ some d
      → is_due now config.destination_ref d ≡ true
      → is_full config.destination_ref ds ≡ false
      → All HasAttempt ds
      → IsBounded ds
      → IsBounded (take_off now token config ds (some d)).0
  unfolding take_off
  take_off-IsBounded ds d q due full a b =
      elim (Bool-cases
        ((d.config_hash ≠ config.config_hash) || ltb d.session.deadline (now + seconds 5))) [
          | inl on ↦ rw on (give_up-IsBounded d.delivery_id ds b)
          | inr off ↦ rw off (
              fly-IsBounded ds d q (ground (arith, eq_iff d.destination_ref config.destination_ref))
                (ground arith) full a b)
        ]

  found-IsBounded :
      (previewed : Option String) (ds : List Delivery)
      → is_full config.destination_ref ds ≡ false
      → All HasAttempt ds
      → IsBounded ds
      → IsBounded
          (take_off now token config ds
            (still_due now config.destination_ref (find_previewed previewed ds))).0
  unfolding take_off
  found-IsBounded none ds full a b = b
  found-IsBounded (some id) ds full a b = elim (Option-cases (find id ds)) [
    | inl q ↦ rw q b
    | inr (d, q) ↦ elim (Bool-cases (is_due now config.destination_ref d)) [
      | inr off ↦ rw (q, off) b
      | inl due ↦
          let own : find d.delivery_id ds ≡ some d =
            subst (λ x. find x ds ≡ some d) (sym (find-id id ds d q)) q in
          rw (q, due) (take_off-IsBounded ds d own due full a b)
    ]
  ]

  launch-IsBounded :
      (previewed : Option String) (ds : List Delivery)
      → All HasAttempt ds
      → IsBounded ds
      → IsBounded (launch now token config previewed ds).0
  launch-IsBounded previewed ds a b = elim (Bool-cases (is_full config.destination_ref ds)) [
    | inl full ↦ rw full b
    | inr free ↦ rw free (found-IsBounded previewed ds free a b)
  ]

  pub claim-IsBounded :
      (transport_ref : String) (previewed : Option String) (ds ds' : List Delivery) (c : Claim)
      → IsBounded ds
      → claim now token transport_ref config previewed ds ≡ ok (ds', c)
      → IsBounded ds'
  unfolding claim
  claim-IsBounded transport_ref previewed ds ds' c b h =
      let same : launch now token config previewed (sweep now ds) ≡ (ds', c) = ground arith in
      subst IsBounded (ap (λ (x : List Delivery × Claim). x.0) same) (
        launch-IsBounded previewed (sweep now ds) (sweep-HasAttempt now ds)
          (sweep-IsBounded now ds b))
