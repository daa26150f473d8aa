-- ===== src/Alerts/Tests.antt =====
-- Concrete deliveries.
use ouf_api_gateway.Base.{
  Bool, Option, String, ◌≡◌, arith, refl, true, none, some, [], ◌∷◌, ok, string_eq, nat_eq,
  option_eq,
}
use ouf_api_gateway.Incidents.Store.{OperationalIncident, opened}
use ouf_api_gateway.Incidents.Listing.{is_in}
use ouf_api_gateway.Alerts.Outbox.{
  Delivery, problem, pending, in_flight, active, is, sweep, expire, exhaust, sync, change, find,
  is_spent,
}
use ouf_api_gateway.Alerts.Dispatch.{
  Destination, AlertOutcome, transient_not_accepted, claimed, claim, take_off, fly, finish,
  is_stale, settled, land,
}
use ouf_api_gateway.Alerts.Enqueue.{
  enqueue_current, new_delivery, is_skipped, same_phase, crossings,
}
use ouf_api_gateway.Alerts.Machine.{IsBounded}
use ouf_api_gateway.Alerts.Steps.{
  enqueues, claims, finishes, Reachable, initial, next, Reachable-IsBounded,
}
use ouf_api_gateway.Alerts.Owner.{
  Grant, AlertDestination, Outbox, configure, check_grant, find_destination,
}
use ouf_api_gateway.Alerts.Dispatch.{preview, checked_outcome}
use ouf_api_gateway.Alerts.Send.{ProviderCall, Attempt, finished, send_once}
use ouf_api_gateway.Alerts.Sent.{CallsOnce, send_once-CallsOnce}
use ouf_api_gateway.Alerts.Governance.{IsGoverned, configure-IsGoverned}

abbrev item : OperationalIncident
item = record {
  incident_id = "i1";
  event_type = "GATEWAY_PUBLICATION_FAILED";
  lifecycle_state = opened;
  severity = "ERROR";
  first_seen_at = "2026-01-01T00:00:00Z";
  last_seen_at = "2026-01-01T00:00:00Z";
  resolved_at = none;
  correlation_id = none;
  endpoint_ref = none;
  error_code = none;
  impact_summary = "The publication failed.";
  action_required = true;
  dedup_key = "gateway:publication";
  occurrence_count = 1;
  visibility_class = "RESTRICTED_OPERATIONAL";
}

abbrev mail : Destination
mail = record { destination_ref = "mail://ops"; transport_ref = "smtp://relay"; config_hash = "h" }

abbrev waiting : Delivery
waiting = record {
  delivery_id = "d1";
  incident_id = "i1";
  destination_ref = "mail://ops";
  episode = 1;
  phase = problem;
  payload = "{}";
  config_hash = "h";
  state = pending;
  version = 0;
  total_attempts = 0;
  next_due = 1000;
  lease_until = none;
  claim_token = none;
  receipt_ref = none;
  session = record {
    session_id = "s1";
    deadline = 86401000;
    max_attempts = 128;
    attempts = 0;
    state = active;
  };
  reconciliation_attempts = 0;
}

abbrev flying : Delivery
flying = record waiting {
  state = in_flight;
  version = 1;
  total_attempts = 1;
  claim_token = some "t1";
  lease_until = some 12000;
  session = record waiting.session { attempts = 1 };
}

abbrev retried : Delivery
retried = record flying {
  state = pending;
  version = 2;
  next_due = 8000;
  claim_token = none;
  lease_until = none;
  receipt_ref = some "";
}

alert_enqueued :
    enqueue_current 1000 "d1" "s1" item (item ∷ []) "mail://ops" "ERROR" "h" "{}" []
    ≡ ok (waiting ∷ [])
unfolding enqueue_current new_delivery is_skipped same_phase crossings is_in is
alert_enqueued = refl

alert_claimed :
    claim 2000 "t1" "smtp://relay" mail (some "d1") (waiting ∷ [])
    ≡ ok (flying ∷ [], claimed waiting)
unfolding claim take_off fly sweep expire exhaust is_spent sync change find is
alert_claimed = refl

abbrev refused : AlertOutcome
refused = record { kind = transient_not_accepted; receipt_ref = ""; retry_after_seconds = 0 }

alert_retried : finish 3000 1000 "d1" "t1" 1 refused (flying ∷ []) ≡ ok (retried ∷ [], pending)
unfolding finish is_stale settled land change find is
alert_retried = refl

outbox_reached : Reachable (retried ∷ [])
outbox_reached =
    next (flying ∷ []) (retried ∷ [])
      (next (waiting ∷ []) (flying ∷ [])
        (next [] (waiting ∷ []) initial (
          enqueues 1000 "d1" "s1" item (item ∷ []) "mail://ops" "ERROR" "h" "{}" (waiting ∷ [])
            alert_enqueued))
        (claims 2000 "t1" "smtp://relay" mail (some "d1") (flying ∷ []) (claimed waiting)
          alert_claimed))
      (finishes 3000 1000 "d1" "t1" 1 refused (retried ∷ []) pending alert_retried)

Reachable-IsBounded_example : IsBounded (retried ∷ [])
Reachable-IsBounded_example = Reachable-IsBounded (retried ∷ []) outbox_reached

abbrev operator : Grant
operator = record {
  allowed = true;
  same_resource = true;
  principal = "anna";
  decision_ref = "decision";
  policy_ref = "policy://alerts";
  actor = "HUMAN";
  tenant = "trieste";
}

abbrev relay : AlertDestination
relay = record {
  destination_ref = "mail://ops";
  recipient_ref = "group://ops";
  transport_ref = "smtp://relay";
  transport_secret_ref = "secret://relay";
  policy_ref = "policy://alerts";
  minimum_severity = "ERROR";
}

abbrev no_destinations : Outbox
no_destinations = record { destinations = []; audits = []; receipts = []; deliveries = [] }

abbrev one_destination : Outbox
one_destination = record {
  destinations =
      record { destination = relay; config_hash = "h"; authority_tenant = "trieste" } ∷ [];
  audits = ("mail://ops", "decision") ∷ [];
  receipts = [];
  deliveries = [];
}

abbrev any_reference : String → Bool
any_reference s = true

abbrev alone : Outbox → Outbox
alone o = o

relay_configured :
    configure any_reference "h" (some (some operator)) alone relay no_destinations
    ≡ ok one_destination
unfolding configure check_grant find_destination
relay_configured = refl

configure-IsGoverned_example :
    IsGoverned "h" (some (some operator)) relay no_destinations no_destinations one_destination
configure-IsGoverned_example =
    configure-IsGoverned any_reference "h" (some (some operator)) alone relay no_destinations
      one_destination (omega arith) relay_configured

abbrev one_waiting : Outbox
one_waiting = record one_destination { deliveries = waiting ∷ [] }

abbrev worker : Grant
worker = record operator { actor = "SERVICE" }

abbrev allow : Option String → Option (Option Grant)
allow id = some (some worker)

abbrev answer : ProviderCall → Option AlertOutcome
answer call = some refused

abbrev attempt : Attempt
attempt = record { now = 2000; later = 3000; token = "t1"; factor = 1000 }

alert_sent : send_once allow "smtp://relay" answer alone alone attempt "mail://ops" one_waiting ≡ (
  record one_destination { deliveries = retried ∷ [] },
  record {
    payload = "{}";
    recipient_ref = "group://ops";
    secret_ref = "secret://relay";
    delivery_id = "d1";
  }
      ∷ [],
  ok (finished pending),
)
unfolding send_once check_grant find_destination preview claim take_off fly sweep expire exhaust
    is_spent sync change find is finish is_stale settled land checked_outcome
alert_sent = refl

send_once-CallsOnce_example :
    CallsOnce allow "smtp://relay" answer alone alone attempt "mail://ops" one_waiting
      (send_once allow "smtp://relay" answer alone alone attempt "mail://ops" one_waiting)
send_once-CallsOnce_example =
    send_once-CallsOnce allow "smtp://relay" answer alone alone attempt "mail://ops" one_waiting
