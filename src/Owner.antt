-- ===== src/Owner.antt =====
-- tools/gateway_operational_api.py: the owner's reading of operational incidents. The host gives
-- `owner_authorize`; verified headers come from the gateway.
pub mod Query
pub mod Handle
pub mod Granted
pub mod Honest
pub mod Shown
mod Tests
use Prim.Native.String
use ouf_api_gateway.Base.{
  ℕ, Bool, true, false, not, ◌&&◌, ◌||◌, Option, none, some, String, List, [], ◌∷◌, ◌==◌, string_eq,
  nat_eq, Outcome, ok, raised, if◌then◌else◌, contains, ◌++◌, is_empty,
}
use ouf_api_gateway.Base.Dict.{Dict, lookup}
use ouf_api_gateway.Document.{
  Value, null, flag, integer, text, items, fields, Fields, object, find, or_null, text_of, is_text,
  same_value, is_dict,
}

-- `CursorRejected`, a failure of the store, and any other exception.
pub data OwnerFailure : Type 0 where
  rejected : ℕ → String → OwnerFailure
  store_unavailable : OwnerFailure
  owner_unavailable : OwnerFailure

infixl 5 ◌>>=◌
unfoldable pub ◌>>=◌ :
    {A B : Type 0} → Outcome OwnerFailure A → (A → Outcome OwnerFailure B) → Outcome OwnerFailure B
ok a >>= f = f a
raised e >>= f = raised e

unfoldable pub demand : Bool → ℕ → String → Outcome OwnerFailure (Unit {0})
demand true status code = ok tt
demand false status code = raised (rejected status code)

-- `v.get(key)` of a value that is known to be a dict
abbrev pub at : String → Value → Value
at key (fields fs) = or_null (find key fs)
at key null = null
at key (flag b) = null
at key (integer n) = null
at key (text s) = null
at key (items xs) = null

-- `v is True`
abbrev pub is_true : Value → Bool
is_true (flag b) = b
is_true null = false
is_true (integer n) = false
is_true (text s) = false
is_true (items xs) = false
is_true (fields fs) = false

-- `identity.get("actor") in {...}`: an unhashable actor is another exception.
abbrev pub is_actor : Value → Outcome OwnerFailure Bool
is_actor (text s) = ok (contains ("HUMAN" ∷ "SERVICE" ∷ "AI_AGENT" ∷ []) s)
is_actor null = ok false
is_actor (flag b) = ok false
is_actor (integer n) = ok false
is_actor (items xs) = raised owner_unavailable
is_actor (fields fs) = raised owner_unavailable

-- `headers.get(name)`, where it is nonempty
abbrev pub nonempty : Option String → Option String
nonempty none = none
nonempty (some s) = if s == "" then none else some s

abbrev pub header : String → Dict String → Option String
header name headers = nonempty (lookup name headers)

abbrev pub id_value : Option String → Value
id_value none = null
id_value (some id) = text id

abbrev pub endpoint_entry : Option String → List (String × Value)
endpoint_entry none = []
endpoint_entry (some e) = if e == "" then [] else (("endpointRef", text e) ∷ [])

-- The resource of a decision: of the collection without an id, else of one incident.
unfoldable pub resource_of : String → Option String → Option String → Value
resource_of tenant incident_id endpoint_ref = object (
    ("type", text "operational")
    ∷ ("id", id_value incident_id)
    ∷ ("tenant", text tenant)
    ∷ (
      "attributes",
      object (
          ("module", text "GATEWAY")
          ∷ ("incidentScope", text "PLATFORM")
          ∷ ("detailLevel", text "RESTRICTED_OPERATIONAL")
          ∷ endpoint_entry endpoint_ref),
    )
    ∷ [])

-- `owner_authorize(headers, capability, resource)`: `none` is an exception of the callback.
abbrev pub Authorizer : Type 0
Authorizer = Dict String → String → Value → Option Value

abbrev pub answered : Option Value → Outcome OwnerFailure Value
answered none = raised owner_unavailable
answered (some v) = ok v

abbrev pub installed : Option Authorizer → Outcome OwnerFailure Authorizer
installed none = raised (rejected 503 "OWNER_LOCAL_AUTHORIZATION_UNAVAILABLE")
installed (some f) = ok f

abbrev pub tenant_of : Option String → Outcome OwnerFailure String
tenant_of none = raised (rejected 403 "TENANT_CONTEXT_REQUIRED")
tenant_of (some t) = ok t

abbrev pub policy_text : Option String → Outcome OwnerFailure String
policy_text none = raised (rejected 403 "OWNER_RESOURCE_GRANT_UNPROVEN")
policy_text (some p) =
    if p == "" then raised (rejected 403 "OWNER_RESOURCE_GRANT_UNPROVEN") else ok p

abbrev pub principal_of : Option String → String
principal_of none = ""
principal_of (some p) = p

-- The checks of a decision: allowed, of the verified identity, and of exactly the asked resource.
unfoldable pub check_decision :
    String → String → Value → Value → Outcome OwnerFailure (Value × String)
unfolding demand
check_decision principal tenant resource decision = do
  granted ←
      demand (is_dict decision && is_true (at "allowed" decision)) 403 "OWNER_CAPABILITY_DENIED"
  identified ←
      demand
        (is_dict (at "identity" decision)
          && is_text principal (at "principal" (at "identity" decision))
          && is_text tenant (at "tenant" (at "identity" decision)))
        403 "OWNER_IDENTITY_UNPROVEN"
  actor ← is_actor (at "actor" (at "identity" decision))
  known ← demand actor 403 "OWNER_IDENTITY_UNPROVEN"
  exact ←
      demand
        (same_value (at "resource" decision) resource
          && is_text "RESTRICTED_OPERATIONAL" (at "permittedDetailLevel" decision))
        403 "OWNER_RESOURCE_GRANT_UNPROVEN"
  policy ← policy_text (text_of (at "policyRef" decision))
  ok (at "identity" decision, policy)

-- `_decision(headers, capability, incident_id, endpoint_ref)`
unfoldable pub decision_of :
    Option Authorizer
    → Dict String
    → String
    → Option String
    → Option String
    → Outcome OwnerFailure (Value × String)
unfolding check_decision resource_of lookup
decision_of owner_authorize headers capability incident_id endpoint_ref = do
  authorize ← installed owner_authorize
  tenant ← tenant_of (header "X-OUF-Tenant-ID" headers)
  decision ← answered (authorize headers capability (resource_of tenant incident_id endpoint_ref))
  check_decision (principal_of (header "X-OUF-Principal-ID" headers)) tenant
      (resource_of tenant incident_id endpoint_ref) decision
