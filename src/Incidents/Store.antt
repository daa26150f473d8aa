-- ===== src/Incidents/Store.antt =====
-- `SQLiteOperationalIncidentStore` of tools/operational_incidents.py: the operations that write.
-- The table is a list of rows by their unique `dedup_key`; a time is the text that is stored.
use ouf_api_gateway.Base.{
  ℕ, ◌+◌, Bool, false, ◌||◌, Option, none, some, String, List, [], ◌∷◌, Outcome, ok, forbid,
  require, ◌>>◌, ◌==◌, ◌≠◌, string_eq, if◌then◌else◌, contains, text_le,
}
use ouf_api_gateway.Base.Dict.{Dict, lookup, insert}

pub data Lifecycle : Type 0 where
  opened recovering resolved : Lifecycle

pub record OperationalIncident : Type 0 where
  pub incident_id : String
  pub event_type : String
  pub lifecycle_state : Lifecycle
  pub severity : String
  pub first_seen_at : String
  pub last_seen_at : String
  pub resolved_at : Option String
  pub correlation_id : Option String
  pub endpoint_ref : Option String
  pub error_code : Option String
  pub impact_summary : String
  pub action_required : Bool
  pub dedup_key : String
  pub occurrence_count : ℕ
  pub visibility_class : String

-- `transitions` is the table `gateway_incident_transition`, the newest revision first: the triggers
-- append every row that is inserted or updated.
pub record Store : Type 0 where
  pub incidents : Dict OperationalIncident
  pub transitions : List OperationalIncident

pub data ValueError : Type 0 where
  invalid_severity identity_required not_platform invalid_limit : ValueError

-- The arguments of `open_incident`.
pub record Report : Type 0 where
  pub dedup_key : String
  pub event_type : String
  pub severity : String
  pub error_code : Option String
  pub impact_summary : String
  pub correlation_id : Option String
  pub endpoint_ref : Option String
  pub action_required : Bool
  pub visibility_class : String

abbrev pub severities : List String
severities = "INFO" ∷ "WARNING" ∷ "ERROR" ∷ "CRITICAL" ∷ []

-- `max(a, b)` of two texts
abbrev pub text_max : String → String → String
text_max a b = if text_le a b then b else a

-- `coalesce(a, b)`
abbrev pub coalesce : Option String → Option String → Option String
coalesce none b = b
coalesce (some a) b = some a

-- The row that is inserted, with the new id.
unfoldable pub first_row : String → String → Report → OperationalIncident
first_row id now r = record {
  incident_id = id;
  event_type = r.event_type;
  lifecycle_state = opened;
  severity = r.severity;
  first_seen_at = now;
  last_seen_at = now;
  resolved_at = none;
  correlation_id = r.correlation_id;
  endpoint_ref = r.endpoint_ref;
  error_code = r.error_code;
  impact_summary = r.impact_summary;
  action_required = r.action_required;
  dedup_key = r.dedup_key;
  occurrence_count = 1;
  visibility_class = r.visibility_class;
}

-- `on conflict(dedup_key) do update`
unfoldable pub seen_again : String → Report → OperationalIncident → OperationalIncident
seen_again now r old = record {
  incident_id = old.incident_id;
  event_type = r.event_type;
  lifecycle_state = opened;
  severity = r.severity;
  first_seen_at = old.first_seen_at;
  last_seen_at = text_max old.last_seen_at now;
  resolved_at = none;
  correlation_id = coalesce r.correlation_id old.correlation_id;
  endpoint_ref = coalesce r.endpoint_ref old.endpoint_ref;
  error_code = r.error_code;
  impact_summary = r.impact_summary;
  action_required = r.action_required;
  dedup_key = old.dedup_key;
  occurrence_count = old.occurrence_count + 1;
  visibility_class = r.visibility_class;
}

unfoldable pub is_recovering : String → String → OperationalIncident → OperationalIncident
is_recovering now impact_summary old = record old {
  lifecycle_state = recovering;
  last_seen_at = text_max old.last_seen_at now;
  resolved_at = none;
  impact_summary = impact_summary;
  action_required = false;
}

unfoldable pub is_resolved : String → String → OperationalIncident → OperationalIncident
is_resolved now impact_summary old = record old {
  lifecycle_state = resolved;
  last_seen_at = text_max old.last_seen_at now;
  resolved_at = some (text_max old.last_seen_at now);
  impact_summary = impact_summary;
  action_required = false;
}

-- A row is written, and the trigger records it.
unfoldable pub put : String → OperationalIncident → Store → Store
put key row st = record {
  incidents = insert key row st.incidents;
  transitions = row ∷ st.transitions;
}

unfoldable pub reported :
    String → String → Report → Option OperationalIncident → OperationalIncident
unfolding first_row seen_again
reported id now r none = first_row id now r
reported id now r (some old) = seen_again now r old

-- `id` is the `uuid4()` of the call, `now` its clock.
unfoldable pub open_incident :
    String → String → Report → Store → Outcome ValueError (Store × OperationalIncident)
unfolding reported put
open_incident id now r st = do
  require (contains severities r.severity) invalid_severity
  forbid ((r.dedup_key == "") || (r.event_type == "") || (r.impact_summary == "")) identity_required
  forbid (r.visibility_class ≠ "RESTRICTED_OPERATIONAL") not_platform
  ok (
    put r.dedup_key (reported id now r (lookup r.dedup_key st.incidents)) st,
    reported id now r (lookup r.dedup_key st.incidents),
  )

abbrev pub updated :
    (OperationalIncident → OperationalIncident)
    → String
    → Store
    → Option OperationalIncident
    → Store × Option OperationalIncident
updated f key st none = (st, none)
updated f key st (some old) = (put key (f old) st, some (f old))

-- `update ... where dedup_key=? returning *`
abbrev pub update :
    (OperationalIncident → OperationalIncident)
    → String
    → Store
    → Store × Option OperationalIncident
update f key st = updated f key st (lookup key st.incidents)

unfoldable pub recovering_incident :
    String → String → String → Store → Store × Option OperationalIncident
unfolding is_recovering put
recovering_incident now dedup_key impact_summary st =
    update (is_recovering now impact_summary) dedup_key st

unfoldable pub resolve_incident :
    String → String → String → Store → Store × Option OperationalIncident
unfolding is_resolved put
resolve_incident now dedup_key impact_summary st =
    update (is_resolved now impact_summary) dedup_key st

-- `get`
unfoldable pub get : String → Dict OperationalIncident → Option OperationalIncident
get incident_id [] = none
get incident_id ((_, row) ∷ rows) =
    if row.incident_id == incident_id then some row else get incident_id rows
