-- ===== src/Owner/Tests.antt =====
-- A host whose policy denies one incident, and what it reads.
use ouf_api_gateway.Base.{
  ℕ, Bool, true, false, Option, none, some, String, List, [], ◌∷◌, string_eq, ◌≡◌, refl, ok,
  if◌then◌else◌,
}
use ouf_api_gateway.Base.Dict.{Dict}
use ouf_api_gateway.Document.{Value, text, flag, object, find, same_value}
use ouf_api_gateway.Incidents.Store.{Store, OperationalIncident, opened}
use ouf_api_gateway.Incidents.Listing.{list_incidents}
use ouf_api_gateway.Owner.{Authorizer, ◌>>=◌, decision_of, at}
use ouf_api_gateway.Owner.Query.{OwnerQuery, query_of}
use ouf_api_gateway.Owner.Handle.{
  Listing, Answer, listing, Pagers, served, handle, direct, unknown, summary_path,
}
use ouf_api_gateway.Owner.Shown.{IsAuthorised, handle-IsAuthorised}
use ouf_api_gateway.Owner.Honest.{IsHonest, direct-IsHonest}

abbrev incident : String → OperationalIncident
incident id = record {
  incident_id = id;
  event_type = "UPSTREAM";
  lifecycle_state = opened;
  severity = "ERROR";
  first_seen_at = "2026-01-01T00:00:00Z";
  last_seen_at = "2026-01-01T00:00:00Z";
  resolved_at = none;
  correlation_id = none;
  endpoint_ref = none;
  error_code = none;
  impact_summary = "";
  action_required = true;
  dedup_key = id;
  occurrence_count = 1;
  visibility_class = "OPERATIONAL";
}

abbrev store : Store
store = record { incidents = ("a", incident "a") ∷ ("b", incident "b") ∷ []; transitions = [] }

abbrev headers : Dict String
headers =
    ("X-OUF-Gateway-Verified", "true")
    ∷ ("X-OUF-Principal-ID", "operator")
    ∷ ("X-OUF-Authorization-Decision-Ref", "d-1")
    ∷ ("X-OUF-Tenant-ID", "city")
    ∷ []

abbrev identity : Value
identity =
    object (("principal", text "operator") ∷ ("tenant", text "city") ∷ ("actor", text "HUMAN") ∷ [])

-- The incident `b` is denied.
abbrev authorizer : Authorizer
authorizer _ _ resource = some (
    object (
      ("allowed", flag (if same_value (at "id" resource) (text "b") then false else true))
      ∷ ("identity", identity)
      ∷ ("resource", resource)
      ∷ ("permittedDetailLevel", text "RESTRICTED_OPERATIONAL")
      ∷ ("policyRef", text "policy-1")
      ∷ []))

abbrev pagers : Pagers ℕ
pagers = record {
  bookmarks = λ q collection identity policy visible. ok 0;
  cursors = λ q identity policy visible. ok 0;
}

abbrev parse : String → Option Value
parse body = none

abbrev since_of : Value → Option String
since_of v = none

abbrev is_uuid : String → Bool
is_uuid s = false

abbrev size : Answer ℕ → ℕ
size a = 100

abbrev summary : Listing
summary = record {
  shown = incident "a" ∷ [];
  partial = true;
  truncated = false;
  redacted = true;
  status = some unknown;
}

handle_runs :
    handle
      (query_of parse is_uuid since_of)
      (some authorizer)
      pagers
      size
      store
      "/api/internal/v1/gateway/operations/summary"
      headers
      ""
    ≡ served (listing summary)
unfolding handle ◌>>=◌ query_of same_value
handle_runs = refl

handle-IsAuthorised_example : IsAuthorised (some authorizer) headers summary
handle-IsAuthorised_example =
    handle-IsAuthorised (query_of parse is_uuid since_of) (some authorizer) pagers size store
      "/api/internal/v1/gateway/operations/summary" headers "" summary handle_runs

abbrev plain : OwnerQuery
plain = record {
  limit = 50;
  since = none;
  state = none;
  snapshot = false;
  coverage = false;
  resume_from = none;
  cursor = none;
}

direct_runs :
    direct
      (query_of parse is_uuid since_of)
      (some authorizer)
      pagers
      size
      store
      headers
      summary_path
      plain
      identity
      "policy-1"
    ≡ ok summary
unfolding direct ◌>>=◌ decision_of same_value find
direct_runs = refl

direct-IsHonest_example :
    (rows : List OperationalIncident) × (list_incidents none 51 none store ≡ ok rows)
    × IsHonest rows summary
direct-IsHonest_example =
    direct-IsHonest (query_of parse is_uuid since_of) (some authorizer) pagers size store headers
      plain identity "policy-1" summary direct_runs
