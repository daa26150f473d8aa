-- ===== src/Mcp/Dispatch.antt =====
-- `MCPDispatcher` of tools/mcp_dispatch.py.
use Prim.Native.String
use ouf_api_gateway.Base.{
  Bool, false, not, ◌&&◌, ◌||◌, Option, none, some, String, List, [], ◌∷◌, Outcome, ok, raised,
  forbid, require, ◌>>◌, ◌>>=◌, ◌==◌, ◌≠◌, string_eq, ltb, length, if◌then◌else◌, any, contains,
  is_empty, select,
}
use ouf_api_gateway.Base.Dict.{Dict, lookup, insert}
use ouf_api_gateway.Config.Compile.{CompiledRoute, RouteCapability}
use ouf_api_gateway.Mcp.Envelope.{
  Failure, dispatch_error, key_error, TrustedIdentity, Bytes, BackendResponse, UpstreamCall,
  is_named, header,
}

abbrev pub installation_mcp_ref : String
installation_mcp_ref = "installation://iam.workloadClients.mcpServer"

pub record BodyIdentity : Type 0 where
  pub service_principal_id : String
  pub principal_id : String
  pub tenant_id : String
  pub actor_type : String
  pub authentication_context_ref : String

-- The request body after its schema has accepted it; an argument is kept as its JSON text.
pub record Envelope : Type 0 where
  pub gateway_binding_ref : String
  pub capability_id : String
  pub owner : String
  pub operation_class : String
  pub arguments : Dict String
  pub identity : BodyIdentity
  pub authorization_decision_ref : String
  pub correlation_id : String
  pub idempotency_key : String
  pub attempt_id : String

-- A route of the dispatcher's table is an MCP route: it has a capability.
pub record Bound : Type 0 where
  pub route : CompiledRoute
  pub capability : RouteCapability

-- `is_mcp_route`
unfoldable pub is_mcp_route : String → CompiledRoute → RouteCapability → Bool
is_mcp_route service_identity r c =
    c.tool_eligible
    && (r.exposure == "internal")
    && (r.policy.identity == "M2M")
    && (contains r.policy.allowed_service_identities service_identity
        || contains r.policy.allowed_service_identities installation_mcp_ref)

unfoldable pub bind_route : String → CompiledRoute → Dict Bound → Outcome Failure (Dict Bound)
bind_route service_identity r table = elim r.route_capability [
  | none ↦ ok table
  | some c ↦
      if is_mcp_route service_identity r c
      then elim (lookup c.capability_id table) [
        | some _ ↦ raised (dispatch_error 503 "AMBIGUOUS_CAPABILITY_BINDING" c.capability_id)
        | none ↦ ok (insert c.capability_id (record { route = r; capability = c }) table)
      ]
      else ok table
]

-- `__init__`: the loop over the compiled routes.
unfoldable pub bind_routes : String → List CompiledRoute → Dict Bound → Outcome Failure (Dict Bound)
unfolding bind_route
bind_routes service_identity [] table = ok table
bind_routes service_identity (r ∷ rs) table =
    bind_route service_identity r table >>= λ table'. bind_routes service_identity rs table'

abbrev pub has_argument : String → Dict String → Bool
has_argument name arguments = any (λ (a : String × String). a.0 == name) arguments

unfoldable pub lacks_argument : Envelope → Bool
lacks_argument e =
    ((e.capability_id == "urban.object.search") && not (has_argument "type" e.arguments))
    || ((e.capability_id == "urban.object.related_search")
        && not (has_argument "anchorObjectId" e.arguments))

abbrev pub installed : String → String → String
installed service_identity value = if value == installation_mcp_ref then service_identity else value

-- `allowed_services`
unfoldable pub allowed_services : String → List String → List String
allowed_services service_identity [] = []
allowed_services service_identity (value ∷ values) =
    installed service_identity value ∷ allowed_services service_identity values

abbrev pub has_scope : Option String → List String → Bool
has_scope none scopes = false
has_scope (some s) scopes = contains scopes s

-- `claimed == trusted`
unfoldable pub is_claimed : BodyIdentity → TrustedIdentity → Bool
is_claimed b t =
    (b.service_principal_id == t.service_principal_id)
    && (b.principal_id == t.principal_id)
    && (b.tenant_id == t.tenant_id)
    && (b.actor_type == t.actor_type)
    && (b.authentication_context_ref == t.authentication_context_ref)

-- `if not headers.get(name): raise`, and the value that the later comparison reads.
unfoldable pub governance_header : String → String → Dict String → Outcome Failure String
governance_header name lowered headers = elim (header lowered headers) [
  | none ↦ raised (dispatch_error 400 "MISSING_GOVERNANCE_HEADER" name)
  | some v ↦ if v == "" then raised (dispatch_error 400 "MISSING_GOVERNANCE_HEADER" name) else ok v
]

unfoldable pub downstream_headers : Envelope → RouteCapability → TrustedIdentity → Dict String
downstream_headers e c i =
    ("Content-Type", "application/json")
    ∷ ("X-Correlation-ID", e.correlation_id)
    ∷ ("Idempotency-Key", e.idempotency_key)
    ∷ ("X-Tool-Attempt-ID", e.attempt_id)
    ∷ ("X-OUF-Capability-ID", c.capability_id)
    ∷ ("X-OUF-Actor-Type", i.actor_type)
    ∷ ("X-OUF-Principal-ID", i.principal_id)
    ∷ ("X-OUF-Tenant-ID", i.tenant_id)
    ∷ ("X-OUF-Authorization-Decision-Ref", e.authorization_decision_ref)
    ∷ []

-- The lookups of the call: `route["service_id"]` and `route["plugins"]["proxy-rewrite"]["uri"]`,
-- which a wildcard route does not have.
unfoldable pub upstream_call :
    (Dict String → Bytes) → Envelope → Bound → TrustedIdentity → Outcome Failure UpstreamCall
upstream_call encode e b i = elim b.route.service_id [
  | none ↦ raised (key_error "service_id")
  | some service ↦ elim b.route.rewrite_uri [
    | none ↦ raised (key_error "proxy-rewrite")
    | some uri ↦ ok (record {
      service = service;
      path = uri;
      body = encode e.arguments;
      headers = downstream_headers e b.capability i;
      timeout_seconds = b.route.policy.timeout_seconds;
    })
  ]
]

-- The checks against the bound route and its capability.
unfoldable pub check_contract : Bytes → Envelope → Bound → Outcome Failure (Unit {0})
check_contract raw_body e b = do
  forbid (ltb b.route.policy.max_request_bytes (length raw_body))
      (dispatch_error 413 "REQUEST_TOO_LARGE" "request exceeds route limit")
  forbid (e.gateway_binding_ref ≠ String.◌++◌ "capability://" b.capability.capability_id)
      (dispatch_error 409 "CAPABILITY_BINDING_MISMATCH" "logical binding does not match capability")
  forbid (e.operation_class ≠ b.capability.operation_type) (
      dispatch_error 409 "CAPABILITY_BINDING_MISMATCH"
        "operation class does not match published capability")
  forbid (e.owner ≠ b.capability.owner)
      (dispatch_error 409 "CAPABILITY_BINDING_MISMATCH" "owner does not match published capability")
  ok tt

-- The checks of the caller.
unfoldable pub check_access :
    String → Envelope → Bound → TrustedIdentity → Outcome Failure (Unit {0})
unfolding allowed_services is_claimed
check_access service_identity e b i = do
  require
      (contains (allowed_services service_identity b.route.policy.allowed_service_identities)
        i.service_principal_id)
      (dispatch_error 403 "CAPABILITY_ACCESS_DENIED" "service identity is not allowed")
  forbid
      (not (is_empty b.route.policy.allowed_actor_types)
        && not (contains b.route.policy.allowed_actor_types i.actor_type))
      (dispatch_error 403 "CAPABILITY_ACCESS_DENIED" "actor type is not allowed")
  forbid (b.capability.human_required && (i.actor_type ≠ "HUMAN_USER"))
      (dispatch_error 403 "TRUSTED_HUMAN_REQUIRED" "MCP identities cannot invoke this capability")
  require (has_scope b.route.policy.required_scope i.scopes)
      (dispatch_error 403 "CAPABILITY_ACCESS_DENIED" "required scope is absent")
  require (is_claimed e.identity i) (
      dispatch_error 403 "IDENTITY_CONTEXT_MISMATCH"
        "body identity differs from authenticated context")
  forbid (e.authorization_decision_ref ≠ i.authorization_decision_ref) (
      dispatch_error 403 "AUTHORIZATION_CONTEXT_MISMATCH"
        "decision reference differs from authenticated context")
  ok tt

-- The checks of the governance headers.
unfoldable pub check_headers : Envelope → Dict String → Outcome Failure (Unit {0})
unfolding governance_header
check_headers e headers = do
  correlation ← governance_header "X-Correlation-ID" "x-correlation-id" headers
  idempotency ← governance_header "Idempotency-Key" "idempotency-key" headers
  attempt ← governance_header "X-Tool-Attempt-ID" "x-tool-attempt-id" headers
  forbid
      ((correlation ≠ e.correlation_id)
        || (idempotency ≠ e.idempotency_key)
        || (attempt ≠ e.attempt_id))
      (dispatch_error 409 "GOVERNANCE_CONTEXT_MISMATCH" "headers and admitted attempt differ")
  ok tt

-- `FORWARDED_RESPONSE_HEADERS`
unfoldable pub is_forwarded : String → Bool
is_forwarded name =
    is_named name "content-type"
    || is_named name "retry-after"
    || is_named name "x-backend-request-id"

unfoldable pub safe_response : BackendResponse → BackendResponse
safe_response r = record {
  status = r.status;
  body = r.body;
  headers = select (λ (h : String × String). is_forwarded h.0) r.headers;
}

-- A body that is no JSON, or that the schema refuses, is a problem of the request.
abbrev pub read_envelope : Outcome String Envelope → Outcome Failure Envelope
read_envelope (raised detail) = raised (dispatch_error 400 "INVALID_MCP_GATEWAY_REQUEST" detail)
read_envelope (ok e) = ok e

abbrev pub bound_route : String → Option Bound → Outcome Failure Bound
bound_route capability_id none =
    raised (dispatch_error 404 "CAPABILITY_BINDING_NOT_FOUND" capability_id)
bound_route capability_id (some b) = ok b

-- The call of the upstream: what it receives, and what `dispatch` then returns or raises.
unfoldable pub send :
    (UpstreamCall → Outcome Failure BackendResponse)
    → Outcome Failure UpstreamCall
    → List UpstreamCall × Outcome Failure BackendResponse
unfolding safe_response
send execute (raised f) = ([], raised f)
send execute (ok call) = (call ∷ [], execute call >>= λ r. ok (safe_response r))

-- `decode` reads the JSON body and checks it against the schema, `encode` writes the arguments, and
-- `execute` is the upstream port.
module _ (decode : Bytes → Outcome String Envelope) (encode : Dict String → Bytes)
    (execute : UpstreamCall → Outcome Failure BackendResponse) where
  -- `dispatch`, up to the call of the upstream.
  unfoldable pub admit :
      String → Dict Bound → Bytes → Dict String → TrustedIdentity → Outcome Failure UpstreamCall
  admit service_identity table raw_body request_headers i = do
    e ← read_envelope (decode raw_body)
    b ← bound_route e.capability_id (lookup e.capability_id table)
    forbid (lacks_argument e) (
        dispatch_error 400 "INVALID_MCP_GATEWAY_REQUEST"
          "arguments do not match the bound capability")
    check_contract raw_body e b
    check_access service_identity e b i
    check_headers e request_headers
    upstream_call encode e b i

  -- The calls that the upstream receives, and what `dispatch` returns or raises.
  unfoldable pub dispatch :
      String
      → Dict Bound
      → Bytes
      → Dict String
      → TrustedIdentity
      → List UpstreamCall × Outcome Failure BackendResponse
  unfolding send
  dispatch service_identity table raw_body request_headers i =
      send execute (admit service_identity table raw_body request_headers i)
