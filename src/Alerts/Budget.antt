-- ===== src/Alerts/Budget.antt =====
-- The budget sessions and the leases of tools/operational_alert_outbox.py.
use mathlib.Core.Path.{subst}
use mathlib.Core.Option.{some-injective}
use ouf_api_gateway.Base.{
  ℕ, ◌+◌, ◌≤◌, ◌≡◌, refl, sym, ap, ◌∙◌, eq_iff, inl, inr, true, ◌&&◌, some, String, List, [], ◌∷◌,
  arith, All, Bool-cases, ◌==◌, string_eq,
}
use ouf_api_gateway.Alerts.Outbox.{
  pending, in_flight, exhausted, unknown, is, Delivery, expire, exhaust, sync, sweep, change, find,
  is_spent, has_lapsed,
}

-- The attempts are within the budget, and who is in flight has a claim and a lease that ends with
-- the session.
pub record IsBudgeted (d : Delivery) : Type 0 where
  pub within : d.session.attempts ≤ d.session.max_attempts
  pub leased :
      is in_flight d.state ≡ true
      → (token : String) × (lease : ℕ) × (d.claim_token ≡ some token)
        × (d.lease_until ≡ some lease)
        × (lease ≤ d.session.deadline)

module _ (P : Delivery → Type 0) where
  pub All-change :
      (id : String) (f : Delivery → Delivery) (ds : List Delivery)
      → ((d : Delivery) → find id ds ≡ some d → P d → P (f d))
      → All P ds
      → All P (change id f ds)
  unfolding change find
  All-change id f [] h a = tt
  All-change id f (d ∷ ds) h (p, ps) = elim (Bool-cases (d.delivery_id == id)) [
    | inl on ↦ rw on (h d (rw on refl) p, ps)
    | inr off ↦ rw off (p, All-change id f ds (λ e q. h e (rw off q)) ps)
  ]

  pub All-find :
      (id : String) (ds : List Delivery) (d : Delivery) → All P ds → find id ds ≡ some d → P d
  unfolding find
  All-find id [] d a q = absurd (ground arith)
  All-find id (e ∷ ds) d (p, ps) q = elim (Bool-cases (e.delivery_id == id)) [
    | inl on ↦ subst P (some-injective e d (let q' = rw (on, find) at q in q')) p
    | inr off ↦ All-find id ds d ps (let q' = rw (off, find) at q in q')
  ]

pub find-id :
    (id : String) (ds : List Delivery) (d : Delivery) → find id ds ≡ some d → d.delivery_id ≡ id
unfolding find
find-id id [] d q = absurd (ground arith)
find-id id (e ∷ ds) d q = elim (Bool-cases (e.delivery_id == id)) [
  | inl on ↦
      let s : e ≡ d = some-injective e d (let q' = rw (on, find) at q in q') in
      sym (ap (λ (x : Delivery). x.delivery_id) s) ∙ (eq_iff e.delivery_id id).0 on
  | inr off ↦ find-id id ds d (let q' = rw (off, find) at q in q')
]

expire-IsBudgeted : (now : ℕ) (d : Delivery) → IsBudgeted d → IsBudgeted (expire now d)
unfolding expire is
expire-IsBudgeted now d b =
    elim (Bool-cases (is in_flight d.state && has_lapsed now d.lease_until)) [
      | inr off ↦ rw off b
      | inl on ↦ rw on (record { within = b.within; leased = λ f. absurd (ground arith) })
    ]

exhaust-IsBudgeted : (now : ℕ) (d : Delivery) → IsBudgeted d → IsBudgeted (exhaust now d)
unfolding exhaust is
exhaust-IsBudgeted now d b = elim (Bool-cases (is pending d.state && is_spent now d.session)) [
  | inr off ↦ rw off b
  | inl on ↦ rw on (record { within = b.within; leased = λ f. absurd (ground arith) })
]

sync-IsBudgeted : (d : Delivery) → IsBudgeted d → IsBudgeted (sync d)
unfolding sync
sync-IsBudgeted d b = elim (Bool-cases (is exhausted d.state)) [
  | inl on ↦ rw on (record { within = b.within; leased = b.leased })
  | inr off ↦ elim (Bool-cases (is unknown d.state)) [
    | inl on ↦ rw (off, on) (record { within = b.within; leased = b.leased })
    | inr idle ↦ rw (off, idle) b
  ]
]

-- After the sweep a pending delivery has an attempt left.
abbrev pub HasAttempt : Delivery → Type 0
HasAttempt d = is pending d.state ≡ true → d.session.attempts + 1 ≤ d.session.max_attempts

swept_one : (now : ℕ) (d : Delivery) → IsBudgeted d → IsBudgeted (sync (exhaust now (expire now d)))
swept_one now d b =
    sync-IsBudgeted (exhaust now (expire now d))
      (exhaust-IsBudgeted now (expire now d) (expire-IsBudgeted now d b))

pub sweep-IsBudgeted :
    (now : ℕ) (ds : List Delivery) → All IsBudgeted ds → All IsBudgeted (sweep now ds)
unfolding sweep
sweep-IsBudgeted now [] a = tt
sweep-IsBudgeted now (d ∷ ds) (b, bs) = (swept_one now d b, sweep-IsBudgeted now ds bs)

exhaust-HasAttempt : (now : ℕ) (d : Delivery) → HasAttempt (exhaust now d)
unfolding exhaust is_spent is
exhaust-HasAttempt now d h = elim (Bool-cases (is pending d.state && is_spent now d.session)) [
  | inl on ↦ absurd (let h' = rw (on, exhaust) at h in ground arith)
  | inr off ↦ rw (off, exhaust) (let h' = rw (off, exhaust) at h in ground arith)
]

sync-HasAttempt : (d : Delivery) → HasAttempt d → HasAttempt (sync d)
unfolding sync
sync-HasAttempt d a h = elim (Bool-cases (is exhausted d.state)) [
  | inl on ↦ rw (on, sync) (a (let h' = rw (on, sync) at h in h'))
  | inr off ↦ elim (Bool-cases (is unknown d.state)) [
    | inl on ↦ rw (off, on, sync) (a (let h' = rw (off, on, sync) at h in h'))
    | inr idle ↦ rw (off, idle, sync) (a (let h' = rw (off, idle, sync) at h in h'))
  ]
]

pub sweep-HasAttempt : (now : ℕ) (ds : List Delivery) → All HasAttempt (sweep now ds)
unfolding sweep
sweep-HasAttempt now [] = tt
sweep-HasAttempt now (d ∷ ds) = (
  sync-HasAttempt (exhaust now (expire now d)) (exhaust-HasAttempt now (expire now d)),
  sweep-HasAttempt now ds,
)
