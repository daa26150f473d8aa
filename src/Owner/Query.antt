-- ===== src/Owner/Query.antt =====
-- `_query` of tools/gateway_operational_api.py: the query of a request's body.
use Prim.Native.String
use ouf_api_gateway.Base.{
  ℕ, Bool, true, false, not, ◌&&◌, ◌||◌, Option, none, some, String, List, [], ◌∷◌, ◌==◌, string_eq,
  Outcome, ok, raised, if◌then◌else◌, leb, ltb,
}
use ouf_api_gateway.Base.Int.{pos, negsuc}
use ouf_api_gateway.Document.{
  Value, null, flag, integer, text, items, fields, Fields, end, entry, find, is_null, text_of,
  keys_within,
}
use ouf_api_gateway.Incidents.Store.{Lifecycle, opened, recovering, resolved}
use ouf_api_gateway.Owner.{OwnerFailure, rejected, ◌>>=◌, demand, is_true}

pub record OwnerQuery : Type 0 where
  pub limit : ℕ
  pub since : Option String
  pub state : Option Lifecycle
  pub snapshot : Bool
  pub coverage : Bool
  pub resume_from : Option String
  pub cursor : Option String

abbrev pub has : Option Value → Bool
has none = false
has (some v) = true

unfoldable pub has_null : Fields → Bool
has_null end = false
has_null (entry k v rest) = is_null v || has_null rest

abbrev pub allowed_keys : Bool → List String
allowed_keys true =
    "limit" ∷ "since" ∷ "state" ∷ "snapshot" ∷ "cursor" ∷ "coverage" ∷ "resumeFrom" ∷ []
allowed_keys false = "limit" ∷ "since" ∷ []

abbrev pub is_flag : Option Value → Bool
is_flag none = true
is_flag (some (flag b)) = true
is_flag (some null) = false
is_flag (some (integer n)) = false
is_flag (some (text s)) = false
is_flag (some (items xs)) = false
is_flag (some (fields fs)) = false

abbrev pub is_on : Option Value → Bool
is_on none = false
is_on (some v) = is_true v

abbrev pub text_in : Option Value → Option String
text_in none = none
text_in (some v) = text_of v

abbrev pub invalid : Outcome OwnerFailure (Unit {0})
invalid = raised (rejected 400 "OPERATIONAL_QUERY_INVALID")

abbrev pub limit_of : Option Value → Outcome OwnerFailure ℕ
limit_of none = ok 50
limit_of (some (integer (pos n))) =
    if leb 1 n && leb n 100 then ok n else raised (rejected 400 "OPERATIONAL_LIMIT_INVALID")
limit_of (some (integer (negsuc n))) = raised (rejected 400 "OPERATIONAL_LIMIT_INVALID")
limit_of (some null) = raised (rejected 400 "OPERATIONAL_LIMIT_INVALID")
limit_of (some (flag b)) = raised (rejected 400 "OPERATIONAL_LIMIT_INVALID")
limit_of (some (text s)) = raised (rejected 400 "OPERATIONAL_LIMIT_INVALID")
limit_of (some (items xs)) = raised (rejected 400 "OPERATIONAL_LIMIT_INVALID")
limit_of (some (fields fs)) = raised (rejected 400 "OPERATIONAL_LIMIT_INVALID")

abbrev pub lifecycle_of : Option String → Outcome OwnerFailure (Option Lifecycle)
lifecycle_of none = raised (rejected 400 "OPERATIONAL_STATE_INVALID")
lifecycle_of (some s) =
    if s == "OPEN"
    then ok (some opened)
    else if s == "RECOVERING"
    then ok (some recovering)
    else if s == "RESOLVED"
    then ok (some resolved)
    else raised (rejected 400 "OPERATIONAL_STATE_INVALID")

abbrev pub state_of : Option Value → Outcome OwnerFailure (Option Lifecycle)
state_of none = ok none
state_of (some v) = lifecycle_of (text_of v)

-- `parse` is `json.loads` with its hooks (a repeated key and a constant are errors), `is_uuid` tells
-- a canonical nonzero UUID, and `since_of` is the store's `_since`.
module _ (parse : String → Option Value) (is_uuid : String → Bool)
    (since_of : Value → Option String) where
  abbrev pub uuid_in : Option Value → Bool
  uuid_in none = false
  uuid_in (some (text s)) = is_uuid s
  uuid_in (some null) = false
  uuid_in (some (flag b)) = false
  uuid_in (some (integer n)) = false
  uuid_in (some (items xs)) = false
  uuid_in (some (fields fs)) = false

  abbrev pub is_text_in : Option Value → Bool
  is_text_in v = elim (text_in v) [ none ↦ false | some s ↦ true ]

  -- The combinations of keys, in the order of the source.
  abbrev pub is_shaped : Fields → Bool
  is_shaped q =
      (if has (find "coverage" q) then is_on (find "coverage" q) else true)
      && (if has (find "resumeFrom" q)
          then keys_within ("resumeFrom" ∷ "limit" ∷ []) q && uuid_in (find "resumeFrom" q)
          else if has (find "cursor" q)
          then (is_text_in (find "cursor" q)
              && (if has (find "coverage" q)
                  then keys_within ("cursor" ∷ "coverage" ∷ []) q && uuid_in (find "cursor" q)
                  else keys_within ("cursor" ∷ []) q))
          else if has (find "coverage" q)
          then (is_on (find "snapshot" q)
              && keys_within ("snapshot" ∷ "coverage" ∷ "state" ∷ "limit" ∷ []) q)
          else true)
      && is_flag (find "snapshot" q)

  abbrev pub since_in : Option Value → Outcome OwnerFailure (Option String)
  since_in none = ok none
  since_in (some v) = elim (since_of v) [
    | none ↦ raised (rejected 400 "OPERATIONAL_SINCE_INVALID")
    | some t ↦ ok (some t)
  ]

  unfoldable pub query_of_fields : Bool → Fields → Outcome OwnerFailure OwnerQuery
  unfolding demand keys_within has_null find
  query_of_fields incidents q = do
    shaped ←
        demand (keys_within (allowed_keys incidents) q && not (has_null q) && is_shaped q) 400
          "OPERATIONAL_QUERY_INVALID"
    limit ← limit_of (find "limit" q)
    state ← state_of (find "state" q)
    since ← since_in (find "since" q)
    ok record {
      limit = limit;
      since = since;
      state = state;
      snapshot = is_on (find "snapshot" q);
      coverage = is_on (find "coverage" q);
      resume_from = text_in (find "resumeFrom" q);
      cursor = text_in (find "cursor" q);
    }

  abbrev pub as_fields : Option Value → Outcome OwnerFailure Fields
  as_fields (some (fields fs)) = ok fs
  as_fields none = raised (rejected 400 "OPERATIONAL_QUERY_INVALID")
  as_fields (some null) = raised (rejected 400 "OPERATIONAL_QUERY_INVALID")
  as_fields (some (flag b)) = raised (rejected 400 "OPERATIONAL_QUERY_INVALID")
  as_fields (some (integer n)) = raised (rejected 400 "OPERATIONAL_QUERY_INVALID")
  as_fields (some (text s)) = raised (rejected 400 "OPERATIONAL_QUERY_INVALID")
  as_fields (some (items xs)) = raised (rejected 400 "OPERATIONAL_QUERY_INVALID")

  abbrev pub body_fields : String → Outcome OwnerFailure Fields
  body_fields body =
      if body == ""
      then ok end
      else if ltb 65536 (String.len body)
      then raised (rejected 400 "OPERATIONAL_QUERY_INVALID")
      else as_fields (parse body)

  -- `_query(body, incidents)`; a body that is missing is the empty one.
  unfoldable pub query_of : String → Bool → Outcome OwnerFailure OwnerQuery
  unfolding query_of_fields
  query_of body incidents = body_fields body >>= query_of_fields incidents
