-- ===== src/Mcp/Recovery.antt =====
-- `MCPRecoveryMediator` of tools/mcp_recovery.py.
use Prim.Native.Char.{code}
use Prim.Native.String
use ouf_api_gateway.Base.{
  ℕ, Bool, true, false, not, ◌&&◌, ◌||◌, Option, none, some, String, List, [], ◌∷◌, Outcome, ok,
  raised, forbid, require, ◌>>◌, ◌>>=◌, ◌==◌, ◌≠◌, string_eq, nat_eq, option_eq, ltb, length,
  if◌then◌else◌, all, contains,
}
use ouf_api_gateway.Base.Int.{ℤ, pos}
use ouf_api_gateway.Base.Text.{replace}
use ouf_api_gateway.Base.Dict.{Dict, lookup, insert}
use ouf_api_gateway.Config.Compile.{CompiledRoute, RecoveryBinding, Policy}
use ouf_api_gateway.Mcp.Envelope.{
  Failure, dispatch_error, type_error, TrustedIdentity, Bytes, BackendResponse, UpstreamCall,
  first_header,
}

-- A value of a JSON object, as far as the checks tell values apart: `nested` is a list or an
-- object, which no set can hold.
pub data Json : Type 0 where
  text : String → Json
  integer : ℤ → Json
  flag : Bool → Json
  null float nested : Json

pub record RecoveryRequest : Type 0 where
  pub backend_request_id : String
  pub owner : String
  pub capability_id : String
  pub correlation_id : String

pub record Candidate : Type 0 where
  pub binding : RecoveryBinding
  pub policy : Policy

abbrev pub same_texts : List String → List String → Bool
same_texts [] [] = true
same_texts [] (y ∷ ys) = false
same_texts (x ∷ xs) [] = false
same_texts (x ∷ xs) (y ∷ ys) = (x == y) && same_texts xs ys

-- `self.bindings[capability_id] == candidate`
unfoldable pub same_candidate : Candidate → Candidate → Bool
same_candidate a b =
    (a.binding.owner == b.binding.owner)
    && (a.binding.service == b.binding.service)
    && (a.binding.path_template == b.binding.path_template)
    && (a.policy.identity == b.policy.identity)
    && same_texts a.policy.allowed_service_identities b.policy.allowed_service_identities
    && same_texts a.policy.allowed_actor_types b.policy.allowed_actor_types
    && (a.policy.max_request_bytes == b.policy.max_request_bytes)
    && (a.policy.timeout_seconds == b.policy.timeout_seconds)
    && (a.policy.required_scope == b.policy.required_scope)

abbrev pub is_ambiguous : Option Candidate → Candidate → Bool
is_ambiguous none c = false
is_ambiguous (some old) c = not (same_candidate old c)

-- A route with a recovery binding has a capability.
unfoldable pub bind_recovery : CompiledRoute → Dict Candidate → Outcome Failure (Dict Candidate)
bind_recovery r table = elim r.recovery [
  | none ↦ ok table
  | some binding ↦ elim r.route_capability [
    | none ↦ ok table
    | some c ↦
        if not c.tool_eligible
        then ok table
        else if is_ambiguous (lookup c.capability_id table)
            (record { binding = binding; policy = r.policy })
        then raised (dispatch_error 503 "AMBIGUOUS_RECOVERY_BINDING" c.capability_id)
        else ok (insert c.capability_id (record { binding = binding; policy = r.policy }) table)
  ]
]

-- `__init__`: the loop over the compiled routes.
unfoldable pub bind_recoveries :
    List CompiledRoute → Dict Candidate → Outcome Failure (Dict Candidate)
unfolding bind_recovery
bind_recoveries [] table = ok table
bind_recoveries (r ∷ rs) table = bind_recovery r table >>= λ table'. bind_recoveries rs table'

-- `quote(id, safe="")` of an id that the schema accepts, which has no other character to quote:
-- a colon, or the line end that `$` lets through.
unfoldable pub quote : String → String
quote String.[] = ""
quote (String.◌∷◌ c s) =
    let rest = quote s in
    if code c == b':'
    then String.◌++◌ "%3A" rest
    else if code c == 10
    then String.◌++◌ "%0A" rest
    else String.◌∷◌ c rest

pub record OwnerOutcome : Type 0 where
  pub backend_request_id : String
  pub outcome : String
  pub outcome_code : String
  pub result_ref : String
  pub actual_tool_calls : ℕ
  pub actual_result_bytes : ℕ

abbrev pub invalid {ℓ} : {A : Type ℓ} → String → Outcome Failure A
invalid detail = raised (dispatch_error 502 "INVALID_OWNER_EVIDENCE" detail)

abbrev pub allowed_fields : List String
allowed_fields =
    "BackendRequestID" ∷ "Outcome" ∷ "OutcomeCode" ∷ "ResultRef" ∷ "ActualToolCalls"
    ∷ "ActualResultBytes" ∷ []

abbrev pub outcomes : List String
outcomes = "SUCCEEDED" ∷ "FAILED" ∷ "NOT_DISPATCHED" ∷ "UNKNOWN" ∷ []

abbrev pub is_text : String → Option Json → Bool
is_text s (some (text t)) = s == t
is_text s _ = false

-- `evidence.get("Outcome") not in {...}`
unfoldable pub outcome_of : Option Json → Outcome Failure String
outcome_of (some (text t)) =
    if contains outcomes t then ok t else invalid "owner outcome is not recognized"
outcome_of (some nested) = raised (type_error "unhashable type")
outcome_of _ = invalid "owner outcome is not recognized"

-- `evidence.get(field, "")`, checked
unfoldable pub metadata_field : Option Json → Outcome Failure String
metadata_field none = ok ""
metadata_field (some (text t)) =
    if ltb 512 (String.count t) then invalid "owner evidence metadata is invalid" else ok t
metadata_field (some _) = invalid "owner evidence metadata is invalid"

-- `evidence.get(field, 0)`, checked
unfoldable pub cost_field : Option Json → Outcome Failure ℕ
cost_field none = ok 0
cost_field (some (integer (pos n))) = ok n
cost_field (some _) = invalid "owner cost is invalid"

abbrev pub has_cost : ℕ → ℕ → Bool
has_cost tool_calls result_bytes = (tool_calls ≠ 0) || (result_bytes ≠ 0)

-- The checks of the owner's evidence, and `normalized`.
unfoldable pub owner_outcome : String → Dict Json → Outcome Failure OwnerOutcome
unfolding outcome_of metadata_field cost_field
owner_outcome backend_request_id evidence = do
  require
      (all (λ (f : String × Json). contains allowed_fields f.0) evidence
        && is_text backend_request_id (lookup "BackendRequestID" evidence))
      (dispatch_error 502 "INVALID_OWNER_EVIDENCE" "owner evidence does not match backend request")
  outcome ← outcome_of (lookup "Outcome" evidence)
  outcome_code ← metadata_field (lookup "OutcomeCode" evidence)
  result_ref ← metadata_field (lookup "ResultRef" evidence)
  tool_calls ← cost_field (lookup "ActualToolCalls" evidence)
  result_bytes ← cost_field (lookup "ActualResultBytes" evidence)
  forbid
      ((outcome == "NOT_DISPATCHED")
        && ((outcome_code ≠ "OWNER_PROVES_NO_DISPATCH") || has_cost tool_calls result_bytes))
      (dispatch_error 502 "INVALID_OWNER_EVIDENCE"
        "no-dispatch outcome lacks authoritative zero-cost proof")
  forbid ((outcome == "UNKNOWN") && has_cost tool_calls result_bytes)
      (dispatch_error 502 "INVALID_OWNER_EVIDENCE" "unknown outcome cannot assert actual cost")
  ok (record {
    backend_request_id = backend_request_id;
    outcome = outcome;
    outcome_code = outcome_code;
    result_ref = result_ref;
    actual_tool_calls = tool_calls;
    actual_result_bytes = result_bytes;
  })

abbrev pub read_request : Outcome String RecoveryRequest → Outcome Failure RecoveryRequest
read_request (raised detail) = raised (dispatch_error 400 "INVALID_RECOVERY_REQUEST" detail)
read_request (ok r) = ok r

abbrev pub bound_candidate : String → Option Candidate → Outcome Failure Candidate
bound_candidate capability_id none =
    raised (dispatch_error 404 "RECOVERY_BINDING_NOT_FOUND" capability_id)
bound_candidate capability_id (some c) = ok c

abbrev pub read_evidence : Option (Dict Json) → Outcome Failure (Dict Json)
read_evidence none = invalid "owner returned invalid JSON"
read_evidence (some evidence) = ok evidence

unfoldable pub recovery_call : RecoveryRequest → Candidate → UpstreamCall
unfolding quote
recovery_call r c = record {
  service = c.binding.service;
  path = replace c.binding.path_template "{backendRequestId}" (quote r.backend_request_id);
  body = [];
  headers =
      ("Accept", "application/json")
      ∷ ("X-Correlation-ID", r.correlation_id)
      ∷ ("X-OUF-Capability-ID", r.capability_id)
      ∷ ("X-OUF-Recovery-For", r.backend_request_id)
      ∷ [];
  timeout_seconds = c.policy.timeout_seconds;
}

-- `decode` reads the JSON body and checks it against the schema, `parse` reads the owner's JSON
-- object, `encode` writes the normalised outcome, and `execute` is the port's `recover`.
module _ (decode : Bytes → Outcome String RecoveryRequest) (parse : Bytes → Option (Dict Json))
    (encode : OwnerOutcome → Bytes) (execute : UpstreamCall → Outcome Failure BackendResponse) where
  -- `recover`, up to the call of the owner.
  unfoldable pub prepare :
      String
      → Dict Candidate
      → Bytes
      → Dict String
      → TrustedIdentity
      → Outcome Failure (RecoveryRequest × UpstreamCall)
  unfolding recovery_call
  prepare service_identity bindings raw_body request_headers i = do
    forbid
        ((i.service_principal_id ≠ service_identity)
          || not (contains i.scopes "mcp.attempt.recover"))
        (dispatch_error 403 "RECOVERY_ACCESS_DENIED"
          "MCP recovery workload identity is not authorized")
    r ← read_request (decode raw_body)
    c ← bound_candidate r.capability_id (lookup r.capability_id bindings)
    forbid (r.owner ≠ c.binding.owner) (
        dispatch_error 409 "RECOVERY_BINDING_MISMATCH"
          "owner does not match the capability registry")
    forbid
        ((first_header "x-correlation-id" request_headers == "")
          || (first_header "x-correlation-id" request_headers ≠ r.correlation_id))
        (dispatch_error 409 "GOVERNANCE_CONTEXT_MISMATCH"
          "correlation header and recovery request differ")
    ok (r, recovery_call r c)

  -- What `recover` makes of the owner's response.
  unfoldable pub conclude : String → BackendResponse → Outcome Failure BackendResponse
  unfolding owner_outcome
  conclude backend_request_id response = do
    forbid (response.status ≠ 200) (
        dispatch_error 503 "OWNER_RECOVERY_UNAVAILABLE"
          "owner outcome is not authoritatively available")
    forbid (ltb 65536 (length response.body)) (
        dispatch_error 502 "INVALID_OWNER_EVIDENCE"
          "owner evidence exceeds the bounded response size")
    evidence ← read_evidence (parse response.body)
    o ← owner_outcome backend_request_id evidence
    ok (record {
      status = 200;
      body = encode o;
      headers = ("Content-Type", "application/json") ∷ [];
    })

  abbrev ask :
      Outcome Failure (RecoveryRequest × UpstreamCall)
      → List UpstreamCall × Outcome Failure BackendResponse
  ask (raised f) = ([], raised f)
  ask (ok (r, call)) = (call ∷ [], execute call >>= conclude r.backend_request_id)

  -- The calls that the owner receives, and what `recover` returns or raises.
  unfoldable pub recover :
      String
      → Dict Candidate
      → Bytes
      → Dict String
      → TrustedIdentity
      → List UpstreamCall × Outcome Failure BackendResponse
  unfolding conclude prepare
  recover service_identity bindings raw_body request_headers i =
      ask (prepare service_identity bindings raw_body request_headers i)
