-- ===== src/Alerts/Sent.antt =====
-- What one `send_once` of tools/operational_alert_outbox.py may send.
use mathlib.Core.Path.{subst}
use mathlib.Core.Option.{some-injective}
use ouf_api_gateway.Base.{
  ℕ, ◌+◌, ◌≤◌, ◌≡◌, ◌⊎◌, refl, sym, ◌∙◌, inl, inr, Bool, true, false, Option, none, some, String,
  List, [], ◌∷◌, Outcome, ok, raised, arith, Outcome-cases, Option-cases, Bool-cases, ◌==◌,
  string_eq, eq_iff,
}
use ouf_api_gateway.Alerts.Outbox.{Delivery, sweep, find, seconds}
use ouf_api_gateway.Alerts.Dispatch.{
  AlertBlocked, Claim, capacity_paused, no_eligible_delivery, spent, claimed, preview, claim,
  is_due, fly, AlertOutcome, checked_outcome, finish,
}
use ouf_api_gateway.Alerts.Owner.{
  Grant, Configured, Outbox, find_destination, check_grant, is_same_tenant,
}
use ouf_api_gateway.Alerts.Budget.{HasAttempt, All-find, sweep-HasAttempt}
use ouf_api_gateway.Alerts.Send.{
  ProviderCall, Attempt, Sending, row_of, call_of, id_of, with_deliveries, checked_preview,
  admitted, posted, launched, send_once,
}
use ouf_api_gateway.Alerts.Claimed.{IsClaimed, claim-claimed, find-change}

find_destination-ref :
    (ref : String) (cs : List Configured) (c : Configured)
    → find_destination ref cs ≡ some c
    → c.destination.destination_ref ≡ ref
unfolding find_destination
find_destination-ref ref [] c h = absurd (ground arith)
find_destination-ref ref (x ∷ cs) c h = elim (Bool-cases (x.destination.destination_ref == ref)) [
  | inl on ↦
      let e : x ≡ c = some-injective x c (let h' = rw on at h in h') in
      subst (λ (y : Configured). y.destination.destination_ref ≡ ref) e
        ((eq_iff x.destination.destination_ref ref).0 on)
  | inr off ↦ find_destination-ref ref cs c (let h' = rw off at h in h')
]

-- The host's answer allows the action for exactly the resource, in the tenant of the destination.
abbrev pub IsAllowed : Option Configured → Option (Option Grant) → Type 0
IsAllowed existing grant =
    (g : Grant) × (grant ≡ some (some g))
    × (g.allowed ≡ true)
    × (g.same_resource ≡ true)
    × (is_same_tenant g existing ≡ true)

check_grant-IsAllowed :
    (human : Bool) (existing : Option Configured) (grant : Option (Option Grant)) (g : Grant)
    → check_grant human existing grant ≡ ok g
    → IsAllowed existing grant
unfolding check_grant
check_grant-IsAllowed human existing none g h = absurd (ground arith)
check_grant-IsAllowed human existing (some none) g h = absurd (ground arith)
check_grant-IsAllowed human existing (some (some x)) g h =
    (x, refl, ground arith, ground arith, ground arith)

module _ (authorize : Option String → Option (Option Grant)) (transport_ref : String)
    (send : ProviderCall → Option AlertOutcome) (between meanwhile : Outbox → Outbox) where
  checked_preview-IsAllowed :
      (existing : Option Configured) (previewed : Option String) (u : Unit {0}) (id : String)
      → checked_preview authorize transport_ref send between meanwhile existing previewed ≡ ok u
      → previewed ≡ some id
      → IsAllowed existing (authorize (some id))
  checked_preview-IsAllowed existing none u id h q = absurd (ground arith)
  checked_preview-IsAllowed existing (some x) u id h q =
      elim (Outcome-cases (check_grant false existing (authorize (some x)))) [
        | inr (e, r) ↦ absurd (let h' = rw r at h in ground arith)
        | inl (g, r) ↦
            subst (λ y. IsAllowed existing (authorize (some y))) (some-injective x id q)
              (check_grant-IsAllowed false existing (authorize (some x)) g r)
      ]

  admitted-IsAllowed :
      (now : ℕ) (ref : String) (o : Outbox) (previewed : Option String)
      → admitted authorize transport_ref send between meanwhile now ref o ≡ ok previewed
      → IsAllowed (find_destination ref o.destinations) (authorize none)
        × ((id : String)
            → previewed ≡ some id
            → IsAllowed (find_destination ref o.destinations) (authorize (some id)))
  admitted-IsAllowed now ref o previewed h =
      let existing = find_destination ref o.destinations in
      let seen = id_of (preview now ref o.deliveries) in
      elim (Outcome-cases (check_grant false existing (authorize none))) [
        | inr (e, q) ↦ absurd (let h' = rw q at h in ground arith)
        | inl (g, q) ↦
            elim (Outcome-cases
              (checked_preview authorize transport_ref send between meanwhile existing seen)) [
                | inr (e, r) ↦ absurd (let h' = rw (q, r) at h in ground arith)
                | inl (u, r) ↦
                    let h' = rw (q, r) at h in
                    let same : seen ≡ previewed = ground arith in
                    (
                      check_grant-IsAllowed false existing (authorize none) g q,
                      λ id p. checked_preview-IsAllowed existing seen u id r (same ∙ p),
                    )
              ]
      ]

  -- One call of the transport: of a delivery that is due to the destination, unchanged in its
  -- configuration, within its budget and in time, by the configured transport, allowed by the host,
  -- and counted in the outbox before the transport is called.
  pub record IsDispatch (a : Attempt) (ref : String) (o : Outbox) (call : ProviderCall)
      : Type 0 where
    pub config : Configured
    pub delivery : Delivery
    pub here : find_destination ref (between o).destinations ≡ some config
    pub made : call ≡ call_of config delivery
    pub transport : transport_ref ≡ config.destination.transport_ref
    pub for_destination : IsAllowed (find_destination ref o.destinations) (authorize none)
    pub for_delivery :
        IsAllowed (find_destination ref o.destinations) (authorize (some delivery.delivery_id))
    pub due : is_due a.now ref delivery ≡ true
    pub current : delivery.config_hash ≡ config.config_hash
    pub in_time : a.now + seconds 5 ≤ delivery.session.deadline
    pub in_budget : delivery.session.attempts + 1 ≤ delivery.session.max_attempts
    pub recorded :
        (ds : List Delivery) × (claim a.now a.token transport_ref
            (row_of config)
            (some delivery.delivery_id)
            (between o).deliveries
          ≡ ok (ds, claimed delivery))
        × (find delivery.delivery_id ds ≡ some (fly a.now a.token delivery))

  abbrev pub CallsOnce : Attempt → String → Outbox → Sending → Type 0
  CallsOnce a ref o r =
      (r.1 ≡ []) ⊎ ((call : ProviderCall) × (r.1 ≡ call ∷ []) × IsDispatch a ref o call)

  pub fly-recorded :
      (a : Attempt) (c : Configured) (o : Outbox) (previewed : Option String) (ds : List Delivery)
      (d : Delivery)
      → IsClaimed a.now a.token transport_ref (row_of c) previewed o.deliveries ds d
      → find d.delivery_id ds ≡ some (fly a.now a.token d)
  unfolding fly
  fly-recorded a c o previewed ds d w =
      subst (λ x. find d.delivery_id x ≡ some (fly a.now a.token d)) (sym w.left)
        (find-change (fly a.now a.token) d.delivery_id _ d refl w.swept)

  posted-calls :
      (a : Attempt) (c : Configured) (d : Delivery) (o : Outbox)
      → (posted authorize transport_ref send between meanwhile a c d o).1 ≡ call_of c d ∷ []
  posted-calls a c d o =
      elim (Outcome-cases (
        finish a.later a.factor d.delivery_id a.token (d.version + 1)
          (checked_outcome (send (call_of c d))) (meanwhile o).deliveries)) [
            | inl (r, q) ↦ rw q refl
            | inr (e, q) ↦ rw q refl
          ]

  launched-CallsOnce :
      (a : Attempt) (ref : String) (o : Outbox) (previewed : Option String) (c : Configured)
      (r : Outcome AlertBlocked (List Delivery × Claim))
      → admitted authorize transport_ref send between meanwhile a.now ref o ≡ ok previewed
      → find_destination ref (between o).destinations ≡ some c
      → claim a.now a.token transport_ref (row_of c) previewed (between o).deliveries ≡ r
      → CallsOnce a ref o
          (launched authorize transport_ref send between meanwhile a c (between o) r)
  launched-CallsOnce a ref o previewed c (raised e) h q p = inl refl
  launched-CallsOnce a ref o previewed c (ok (ds, capacity_paused)) h q p = inl refl
  launched-CallsOnce a ref o previewed c (ok (ds, no_eligible_delivery)) h q p = inl refl
  launched-CallsOnce a ref o previewed c (ok (ds, spent)) h q p = inl refl
  launched-CallsOnce a ref o previewed c (ok (ds, claimed d)) h q p =
      let w =
        claim-claimed a.now a.token (row_of c) transport_ref previewed (between o).deliveries ds d
          p in
      let grants = admitted-IsAllowed a.now ref o previewed h in
      inr (
        call_of c d,
        posted-calls a c d (with_deliveries ds (between o)),
        record {
          config = c;
          delivery = d;
          here = q;
          made = refl;
          transport = w.transport;
          for_destination = grants.0;
          for_delivery = grants.1 d.delivery_id w.named;
          due =
              subst (λ x. is_due a.now x d ≡ true)
                (find_destination-ref ref (between o).destinations c q) w.due;
          current = w.current;
          in_time = w.in_time;
          in_budget =
              All-find HasAttempt d.delivery_id (sweep a.now (between o).deliveries) d
                (sweep-HasAttempt a.now (between o).deliveries) w.swept (ground (arith, w.due));
          recorded = (
            ds,
            subst
                (λ x.
                  claim a.now a.token transport_ref (row_of c) x (between o).deliveries
                  ≡ ok (ds, claimed d))
                w.named p,
            fly-recorded a c (between o) previewed ds d w,
          );
        },
      )

  -- Whatever other workers do in between, a `send_once` calls the transport at most once. A call is
  -- of a delivery that the preview named and that is still pending and due to this destination; the
  -- host has allowed the dispatch to the destination and of this delivery, in the tenant of the
  -- destination; the transport is the configured one and the recipient and the secret are those of
  -- the configuration under which the delivery was made; its session has an attempt left and at
  -- least 5 seconds to its deadline; and the outbox already holds it in flight, its attempt counted.
  pub send_once-CallsOnce :
      (a : Attempt) (ref : String) (o : Outbox)
      → CallsOnce a ref o (send_once authorize transport_ref send between meanwhile a ref o)
  unfolding send_once
  send_once-CallsOnce a ref o =
      elim (Outcome-cases (admitted authorize transport_ref send between meanwhile a.now ref o)) [
        | inr (e, h) ↦ rw h (inl refl)
        | inl (previewed, h) ↦ elim (Option-cases (find_destination ref (between o).destinations)) [
          | inl q ↦ rw (h, q) (inl refl)
          | inr (c, q) ↦ rw (h, q) (launched-CallsOnce a ref o previewed c _ h q refl)
        ]
      ]
