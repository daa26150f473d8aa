-- ===== src/Alerts/Capacity.antt =====
-- How many deliveries are in flight, under the changes of tools/operational_alert_outbox.py.
use ouf_api_gateway.Base.{
  ℕ, ◌+◌, ◌≤◌, ◌≡◌, refl, ◌∙◌, inl, inr, Bool, true, false, ◌&&◌, some, String, List, [], ◌∷◌, ◌++◌,
  arith, Bool-cases, ◌==◌, string_eq, count,
}
use ouf_api_gateway.Alerts.Outbox.{
  pending, in_flight, exhausted, unknown, is, Delivery, expire, exhaust, sync, sweep, change, find,
  has_lapsed, is_spent, is_flying, is_flying_to,
}

module _ (p : Delivery → Bool) where
  pub count-change :
      (id : String) (f : Delivery → Delivery) (ds : List Delivery)
      → count p (change id f ds) ≤ count p ds + 1
  unfolding change
  count-change id f [] = omega arith
  count-change id f (d ∷ ds) = elim (Bool-cases (d.delivery_id == id)) [
    | inl on ↦ rw on (ground arith)
    | inr off ↦ rw off (omega (arith, count-change id f ds))
  ]

  -- A change that puts no delivery among the counted ones.
  pub count-change_out :
      (id : String) (f : Delivery → Delivery) (ds : List Delivery)
      → ((d : Delivery) → find id ds ≡ some d → p (f d) ≡ true → p d ≡ true)
      → count p (change id f ds) ≤ count p ds
  unfolding change find
  count-change_out id f [] h = omega arith
  count-change_out id f (d ∷ ds) h = elim (Bool-cases (d.delivery_id == id)) [
    | inl on ↦
        let k = h d (rw on refl) in
        rw on (elim (Bool-cases (p (f d))) [
          | inl yes_new ↦ rw (yes_new, k yes_new) (omega arith)
          | inr no_new ↦ rw no_new (ground arith)
        ])
    | inr off ↦ rw off (omega (arith, count-change_out id f ds (λ e q. h e (rw off q))))
  ]

  pub count-append :
      (ds : List Delivery) (d : Delivery) → p d ≡ false → count p (ds ++ (d ∷ [])) ≡ count p ds
  count-append [] d h = rw h (omega arith)
  count-append (e ∷ ds) d h = omega (arith, count-append ds d h)

-- In flight only if the other is, and to the same destination.
abbrev FliesLess : Delivery → Delivery → Type 0
FliesLess d e =
    (is in_flight d.state ≡ true → is in_flight e.state ≡ true)
    × (d.destination_ref ≡ e.destination_ref)

expire-FliesLess : (now : ℕ) (d : Delivery) → FliesLess (expire now d) d
unfolding expire is
expire-FliesLess now d = elim (Bool-cases (is in_flight d.state && has_lapsed now d.lease_until)) [
  | inl on ↦ rw on ((λ f. absurd (ground arith)), refl)
  | inr off ↦ rw off ((λ f. f), refl)
]

exhaust-FliesLess : (now : ℕ) (d : Delivery) → FliesLess (exhaust now d) d
unfolding exhaust is
exhaust-FliesLess now d = elim (Bool-cases (is pending d.state && is_spent now d.session)) [
  | inl on ↦ rw on ((λ f. absurd (ground arith)), refl)
  | inr off ↦ rw off ((λ f. f), refl)
]

sync-FliesLess : (d : Delivery) → FliesLess (sync d) d
unfolding sync
sync-FliesLess d = elim (Bool-cases (is exhausted d.state)) [
  | inl on ↦ rw on ((λ f. f), refl)
  | inr off ↦ elim (Bool-cases (is unknown d.state)) [
    | inl on ↦ rw (off, on) ((λ f. f), refl)
    | inr idle ↦ rw (off, idle) ((λ f. f), refl)
  ]
]

swept-FliesLess : (now : ℕ) (d : Delivery) → FliesLess (sync (exhaust now (expire now d))) d
swept-FliesLess now d =
    let (f, p) = expire-FliesLess now d in
    let (g, q) = exhaust-FliesLess now (expire now d) in
    let (h, r) = sync-FliesLess (exhaust now (expire now d)) in ((λ x. f (g (h x))), r ∙ q ∙ p)

pub count-sweep_flying :
    (now : ℕ) (ds : List Delivery) → count is_flying (sweep now ds) ≤ count is_flying ds
unfolding sweep
count-sweep_flying now [] = omega arith
count-sweep_flying now (d ∷ ds) =
    let (f, p) = swept-FliesLess now d in
    let rest = count-sweep_flying now ds in
    elim (Bool-cases (is in_flight (sync (exhaust now (expire now d))).state)) [
      | inl on ↦ rw (on, f on) (omega (arith, rest))
      | inr off ↦ rw off (ground (arith, rest))
    ]

pub count-sweep_flying_to :
    (destination : String) (now : ℕ) (ds : List Delivery)
    → count (is_flying_to destination) (sweep now ds) ≤ count (is_flying_to destination) ds
unfolding sweep
count-sweep_flying_to destination now [] = omega arith
count-sweep_flying_to destination now (d ∷ ds) =
    let (f, p) = swept-FliesLess now d in
    let rest = count-sweep_flying_to destination now ds in
    rw p (elim (Bool-cases (is in_flight (sync (exhaust now (expire now d))).state)) [
      | inl on ↦ rw (on, f on) (omega (arith, rest))
      | inr off ↦ rw off (ground (arith, rest))
    ])
