-- ===== src/Owner/Handle.antt =====
-- `handle` of tools/gateway_operational_api.py, over the store of incidents. The paths of cursors and
-- of bookmarks, tools/operational_cursor.py and tools/operational_bookmarks.py, are reached as `Pagers`.
use ouf_api_gateway.Base.{
  ℕ, Bool, true, false, not, ◌&&◌, ◌||◌, Option, none, some, String, List, [], ◌∷◌, ◌==◌, string_eq,
  nat_eq, Outcome, ok, raised, if◌then◌else◌, length, take, any, ltb, ◌+◌,
}
use ouf_api_gateway.Base.Dict.{Dict, lookup}
use ouf_api_gateway.Document.{Value, same_value}
use ouf_api_gateway.Incidents.Store.{
  Store, OperationalIncident, Lifecycle, opened, recovering, ValueError,
}
use ouf_api_gateway.Incidents.Listing.{list_incidents, is_in}
use ouf_api_gateway.Owner.{
  OwnerFailure, rejected, store_unavailable, owner_unavailable, ◌>>=◌, demand, header, Authorizer,
  decision_of,
}
use ouf_api_gateway.Owner.Query.{OwnerQuery}

pub data OwnerStatus : Type 0 where
  degraded recovering_status healthy unknown : OwnerStatus

-- The body of a direct listing; `redacted` stands for the entry `unavailable`.
pub record Listing : Type 0 where
  pub shown : List OperationalIncident
  pub partial : Bool
  pub truncated : Bool
  pub redacted : Bool
  pub status : Option OwnerStatus

-- The two paths; an unknown path has none.
pub data OwnerPath : Type 0 where
  incidents_path summary_path : OwnerPath

abbrev pub incidents_url : String
incidents_url = "/api/internal/v1/gateway/operations/incidents"

abbrev pub summary_url : String
summary_url = "/api/internal/v1/gateway/operations/summary"

abbrev pub path_of : String → Option OwnerPath
path_of path =
    if path == incidents_url
    then some incidents_path
    else if path == summary_url
    then some summary_path
    else none

abbrev pub capability_of : OwnerPath → String
capability_of incidents_path = "ouf.gateway.operations.incidents"
capability_of summary_path = "ouf.gateway.operations.summary"

abbrev pub is_incidents : OwnerPath → Bool
is_incidents incidents_path = true
is_incidents summary_path = false

-- A denial of one row hides it; another failure, or another identity or policy, ends the call.
abbrev pub row_decided :
    Value → String → Outcome OwnerFailure (Value × String) → Outcome OwnerFailure Bool
row_decided identity policy (ok (row_identity, row_policy)) =
    if same_value row_identity identity && row_policy == policy
    then ok true
    else raised (rejected 409 "OPERATIONAL_POLICY_CHANGED")
row_decided identity policy (raised (rejected status code)) =
    if status == 403 then ok false else raised (rejected status code)
row_decided identity policy (raised store_unavailable) = raised store_unavailable
row_decided identity policy (raised owner_unavailable) = raised owner_unavailable

abbrev pub collection_decided :
    Value → String → Outcome OwnerFailure (Value × String) → Outcome OwnerFailure Bool
collection_decided identity policy (ok (fresh_identity, fresh_policy)) =
    if same_value fresh_identity identity && fresh_policy == policy
    then ok true
    else raised (rejected 409 "OPERATIONAL_POLICY_CHANGED")
collection_decided identity policy (raised e) = raised e

abbrev pub listed :
    Outcome ValueError (List OperationalIncident) → Outcome OwnerFailure (List OperationalIncident)
listed (ok rows) = ok rows
listed (raised e) = raised owner_unavailable

-- The rows that `visible` keeps, in order.
unfoldable pub visible_rows :
    (OperationalIncident → Outcome OwnerFailure Bool)
    → List OperationalIncident
    → Outcome OwnerFailure (List OperationalIncident)
visible_rows visible [] = ok []
visible_rows visible (r ∷ rs) = do
  keep ← visible r
  rest ← visible_rows visible rs
  ok (if keep then r ∷ rest else rest)

abbrev pub status_of : List OperationalIncident → OwnerStatus
status_of rows =
    if any (λ r. is_in opened r.lifecycle_state) rows
    then degraded
    else if any (λ r. is_in recovering r.lifecycle_state) rows
    then recovering_status
    else healthy

abbrev pub wanted_state : OwnerPath → OwnerQuery → Option Lifecycle
wanted_state incidents_path q = q.state
wanted_state summary_path q = none

-- The listing of the rows that were read, from the rows that are shown.
unfoldable pub listing_of : OwnerPath → Bool → ℕ → List OperationalIncident → Listing
unfolding is_in
listing_of incidents_path truncated original shown = record {
  shown = shown;
  partial = not (length shown == original);
  truncated = truncated;
  redacted = not (length shown == original);
  status = none;
}
listing_of summary_path truncated original shown = record {
  shown = shown;
  partial = truncated || not (length shown == original);
  truncated = truncated;
  redacted = not (length shown == original);
  status = some (if truncated || not (length shown == original) then unknown else status_of shown);
}

pub data Answer (P : Type 0) : Type 0 where
  listing : Listing → Answer P
  paged : P → Answer P

-- `PublicationBookmarks` and the store's cursors, with the closures that `handle` gives them.
pub record Pagers (P : Type 0) : Type 0 where
  pub bookmarks :
      OwnerQuery
      → (Value → String → Outcome OwnerFailure Bool)
      → Value
      → String
      → (OperationalIncident → Outcome OwnerFailure Bool)
      → Outcome OwnerFailure P
  pub cursors :
      OwnerQuery
      → Value
      → String
      → (OperationalIncident → Outcome OwnerFailure Bool)
      → Outcome OwnerFailure P

pub data Response (P : Type 0) : Type 0 where
  served : Answer P → Response P
  problem : ℕ → String → Option Bool → Response P

abbrev pub is_given : Option String → Bool
is_given none = false
is_given (some s) = true

module _ {P : Type 0} (query_of : String → Bool → Outcome OwnerFailure OwnerQuery)
    (owner_authorize : Option Authorizer) (pagers : Pagers P) (size : Answer P → ℕ) where
  abbrev pub visible :
      Dict String → OwnerPath → Value → String → OperationalIncident → Outcome OwnerFailure Bool
  visible headers path identity policy r =
      row_decided identity policy (
        decision_of owner_authorize headers (capability_of path) (some r.incident_id)
          r.endpoint_ref)

  abbrev pub collection : Dict String → OwnerPath → Value → String → Outcome OwnerFailure Bool
  collection headers path identity policy =
      collection_decided identity policy
        (decision_of owner_authorize headers (capability_of path) none none)

  -- One row more than the limit is read, which tells whether the listing is cut.
  unfoldable pub direct :
      Store → Dict String → OwnerPath → OwnerQuery → Value → String → Outcome OwnerFailure Listing
  unfolding list_incidents visible_rows listing_of
  direct store headers path q identity policy = do
    rows ← listed (list_incidents (wanted_state path q) (q.limit + 1) q.since store)
    shown ← visible_rows (visible headers path identity policy) (take q.limit rows)
    ok (listing_of path (ltb q.limit (length rows)) (length (take q.limit rows)) shown)

  unfoldable pub routed :
      Store
      → Dict String
      → OwnerPath
      → OwnerQuery
      → Value
      → String
      → Outcome OwnerFailure (Answer P)
  unfolding direct
  routed store headers path q identity policy =
      if q.coverage || is_given q.resume_from
      then (pagers.bookmarks q (collection headers path) identity policy
            (visible headers path identity policy)
          >>= λ p. ok (paged p))
      else if q.snapshot || is_given q.cursor
      then (pagers.cursors q identity policy (visible headers path identity policy) >>= λ p.
          ok (paged p))
      else (direct store headers path q identity policy >>= λ l. ok (listing l))

  -- The body of `try`
  unfoldable pub answer_of :
      Store → Dict String → OwnerPath → String → Outcome OwnerFailure (Answer P)
  unfolding routed decision_of
  answer_of store headers path body = do
    q ← query_of body (is_incidents path)
    decision ← decision_of owner_authorize headers (capability_of path) none none
    answer ← routed store headers path q decision.0 decision.1
    fits ← demand (not (ltb 524288 (size answer))) 503 "OPERATIONAL_RESPONSE_CAPACITY"
    ok answer

  abbrev pub response_of : Outcome OwnerFailure (Answer P) → Response P
  response_of (ok answer) = served answer
  response_of (raised (rejected status code)) = problem status code none
  response_of (raised store_unavailable) = problem 503 "OPERATIONAL_STORE_UNAVAILABLE" (some true)
  response_of (raised owner_unavailable) = problem 503 "OPERATIONAL_OWNER_UNAVAILABLE" (some false)

  abbrev pub at_path : Store → Dict String → String → Option OwnerPath → Response P
  at_path store headers body none = problem 404 "OWNER_OPERATION_NOT_FOUND" none
  at_path store headers body (some path) = response_of (answer_of store headers path body)

  abbrev pub is_verified : Option String → Bool
  is_verified none = false
  is_verified (some v) = v == "true"

  -- `handle(path, headers, body)`
  unfoldable pub handle : Store → String → Dict String → String → Response P
  unfolding answer_of lookup
  handle store path headers body =
      if not (is_verified (lookup "X-OUF-Gateway-Verified" headers))
      then problem 401 "TRUSTED_GATEWAY_CONTEXT_REQUIRED" none
      else if not (
          is_given (header "X-OUF-Principal-ID" headers)
          && is_given (header "X-OUF-Authorization-Decision-Ref" headers))
      then problem 403 "VERIFIED_AUTHORIZATION_CONTEXT_REQUIRED" none
      else at_path store headers body (path_of path)
