-- ===== src/Incidents/Tests.antt =====
-- Concrete incidents.
use ouf_api_gateway.Base.{◌≡◌, refl, true, false, none, some, [], ◌∷◌, ok, string_eq, arith}
use ouf_api_gateway.Base.Dict.{lookup, insert}
use ouf_api_gateway.Incidents.Store.{
  Store, opened, Report, OperationalIncident, open_incident, resolve_incident, reported, first_row,
  put,
}
use ouf_api_gateway.Incidents.Listing.{
  Summary, degraded, summary, list_incidents, prioritized, insert_before, is_in, rows,
}
use ouf_api_gateway.Incidents.History.{
  reports, resolves, Reachable, initial, next, empty_store, IsConsistent, IsFresh,
  Reachable-IsConsistent,
}
use ouf_api_gateway.Incidents.Summary.{Reports, summary-healthy}

abbrev report : Report
report = record {
  dedup_key = "gateway:publication";
  event_type = "GATEWAY_PUBLICATION_FAILED";
  severity = "ERROR";
  error_code = some "VALIDATION_FAILED";
  impact_summary = "The publication failed.";
  correlation_id = none;
  endpoint_ref = none;
  action_required = true;
  visibility_class = "RESTRICTED_OPERATIONAL";
}

abbrev row : OperationalIncident
row = record {
  incident_id = "i1";
  event_type = "GATEWAY_PUBLICATION_FAILED";
  lifecycle_state = opened;
  severity = "ERROR";
  first_seen_at = "2026-01-01T00:00:00Z";
  last_seen_at = "2026-01-01T00:00:00Z";
  resolved_at = none;
  correlation_id = none;
  endpoint_ref = none;
  error_code = some "VALIDATION_FAILED";
  impact_summary = "The publication failed.";
  action_required = true;
  dedup_key = "gateway:publication";
  occurrence_count = 1;
  visibility_class = "RESTRICTED_OPERATIONAL";
}

abbrev opened_store : Store
opened_store = record { incidents = ("gateway:publication", row) ∷ []; transitions = row ∷ [] }

report_opened :
    open_incident "i1" "2026-01-01T00:00:00Z" report empty_store ≡ ok (opened_store, row)
unfolding open_incident reported first_row put lookup insert
report_opened = refl

IsFresh-i1 : IsFresh "i1" empty_store
unfolding lookup
IsFresh-i1 k r h = absurd (ground arith)

store_reached :
    Reachable
      (resolve_incident "2026-01-01T00:05:00Z" "gateway:publication" "Recovered." opened_store).0
store_reached =
    next opened_store
      (resolve_incident "2026-01-01T00:05:00Z" "gateway:publication" "Recovered." opened_store).0
      (next empty_store opened_store initial
        (reports "i1" "2026-01-01T00:00:00Z" report opened_store row IsFresh-i1 report_opened))
      (resolves "2026-01-01T00:05:00Z" "gateway:publication" "Recovered.")

Reachable-IsConsistent_example :
    IsConsistent
      (resolve_incident "2026-01-01T00:05:00Z" "gateway:publication" "Recovered." opened_store).0
Reachable-IsConsistent_example =
    Reachable-IsConsistent
      (resolve_incident "2026-01-01T00:05:00Z" "gateway:publication" "Recovered." opened_store).0
      store_reached

abbrev one_open : Summary
one_open = record {
  status = degraded;
  open_incidents = 1;
  recovering_incidents = 0;
  items = row ∷ [];
  truncated = false;
}

opened_summary : summary 100 none opened_store ≡ ok one_open
unfolding summary list_incidents prioritized insert_before is_in
opened_summary = refl

summary-healthy_example : Reports 100 none (rows opened_store.incidents) one_open
summary-healthy_example = summary-healthy 100 none opened_store one_open opened_summary
