-- ===== src/Alerts/Reconcile.antt =====
-- `renew_exhausted_budget` and `reconcile_ambiguous_delivery` of
-- tools/operational_alert_outbox.py. The second reads the transport between two transactions, so it
-- is two operations: `begin_reconciliation` and `reconcile`.
use Prim.Native.String
use ouf_api_gateway.Base.{
  ℕ, ◌+◌, Bool, true, false, not, ◌||◌, ◌&&◌, some, String, List, ◌==◌, ◌≠◌, string_eq, nat_eq,
  if◌then◌else◌, ltb, leb, Outcome, ok, forbid, require, ◌>>◌, ◌>>=◌,
}
use ouf_api_gateway.Alerts.Outbox.{
  State, pending, accepted, unknown, exhausted, is, Delivery, seconds, change, find, active, ended,
}
use ouf_api_gateway.Alerts.Dispatch.{
  AlertBlocked, delivery_not_found, recovery_intent_invalid, recovery_conflict,
  reconciliation_conflict, reconciliation_control_exhausted, transport_unproven, Destination, found,
  AlertOutcome, OutcomeKind, is_accepted_kind, transient_not_accepted,
}

unfoldable pub renew : ℕ → String → Delivery → Delivery
renew now session_id d = record d {
  state = pending;
  next_due = now;
  version = d.version + 1;
  session = record {
    session_id = session_id;
    deadline = now + seconds 86400;
    max_attempts = 128;
    attempts = 0;
    state = active;
  };
}

-- `renew_exhausted_budget`, after its authorization; `session_id` is the `uuid4()` of the call.
unfoldable pub renew_exhausted_budget :
    ℕ → String → String → ℕ → String → List Delivery → Outcome AlertBlocked (List Delivery)
unfolding renew
renew_exhausted_budget now session_id delivery expected_version reason ds = do
  d ← found delivery_not_found (find delivery ds)
  require (leb 1 (String.count reason) && leb (String.count reason) 1000) recovery_intent_invalid
  require (is exhausted d.state && (d.version == expected_version)) recovery_conflict
  ok (change delivery (renew now session_id) ds)

unfoldable pub count_reconciliation : Delivery → Delivery
count_reconciliation d = record d { reconciliation_attempts = d.reconciliation_attempts + 1 }

-- `reconcile_ambiguous_delivery`, up to the query of the transport.
unfoldable pub begin_reconciliation :
    String → Destination → String → ℕ → List Delivery → Outcome AlertBlocked (List Delivery)
unfolding count_reconciliation
begin_reconciliation transport_ref config delivery expected_version ds = do
  d ← found delivery_not_found (find delivery ds)
  forbid (transport_ref ≠ config.transport_ref) transport_unproven
  require (is unknown d.state && (d.version == expected_version)) reconciliation_conflict
  require (ltb d.reconciliation_attempts 8) reconciliation_control_exhausted
  ok (change delivery count_reconciliation ds)

abbrev pub is_transient : OutcomeKind → Bool
is_transient transient_not_accepted = true
is_transient _ = false

-- The query has an answer that settles the delivery.
unfoldable pub is_decisive : AlertOutcome → Bool
is_decisive o =
    is_transient o.kind
    || (is_accepted_kind o.kind
        && not (o.receipt_ref == "")
        && leb (String.count o.receipt_ref) 200)

abbrev pub reconciled_state : ℕ → AlertOutcome → Delivery → State
reconciled_state now o d =
    if is_accepted_kind o.kind
    then accepted
    else if ltb d.session.attempts d.session.max_attempts
        && ltb (now + seconds 5) d.session.deadline
    then pending
    else exhausted

unfoldable pub reconciled : ℕ → State → AlertOutcome → Delivery → Delivery
reconciled now s o d = record d {
  state = s;
  version = d.version + 1;
  next_due = now;
  receipt_ref = some o.receipt_ref;
  session = record d.session { state = if is pending s then active else ended s };
}

-- `reconcile_ambiguous_delivery`, from the answer of the query on.
unfoldable pub reconcile :
    ℕ → String → ℕ → AlertOutcome → List Delivery → Outcome AlertBlocked (List Delivery × State)
unfolding is_decisive reconciled
reconcile now delivery expected_version o ds =
    let settle = do
      d ← found delivery_not_found (find delivery ds)
      require (is unknown d.state && (d.version == expected_version)) reconciliation_conflict
      ok (
        change delivery (reconciled now (reconciled_state now o d) o) ds,
        reconciled_state now o d,
      )
    in if is_decisive o then settle else ok (ds, unknown)
