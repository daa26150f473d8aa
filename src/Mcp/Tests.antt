-- ===== src/Mcp/Tests.antt =====
-- Concrete requests for the mediators.
use ouf_api_gateway.Base.{
  ◌≡◌, refl, true, false, Option, none, some, String, List, [], ◌∷◌, Outcome, ok, raised, All,
  string_eq,
}
use ouf_api_gateway.Base.Dict.{Dict, lookup, insert}
use ouf_api_gateway.Config.Compile.{CompiledRoute, RouteCapability}
use ouf_api_gateway.Mcp.Envelope.{
  Failure, TrustedIdentity, Bytes, BackendResponse, UpstreamCall, header, first_header, is_named,
  lower_code,
}
use ouf_api_gateway.Mcp.Dispatch.{
  Envelope, Bound, bind_route, bind_routes, is_mcp_route, dispatch, send, admit, lacks_argument,
  check_contract, check_access, check_headers, governance_header, allowed_services, is_claimed,
  upstream_call, downstream_headers, safe_response, is_forwarded,
}
use ouf_api_gateway.Mcp.Admission.{Authorised, dispatch-Authorised}
use ouf_api_gateway.Mcp.Recovery.{Json, text, OwnerOutcome, RecoveryRequest, Candidate, recover}
use ouf_api_gateway.Mcp.Proven.{IsRecovered, recover-IsRecovered}
use ouf_api_gateway.Mcp.Evidence.{
  EvidencePayload, CanonicalEvidence, ingest, IsOwnEvidence, ingest-IsOwnEvidence,
}

abbrev search : RouteCapability
search = record {
  capability_id = "urban.search";
  version = "1";
  owner = "urban";
  operation_type = "READ";
  tool_eligible = true;
  human_required = false;
}

abbrev search_route : CompiledRoute
search_route = record {
  id = "search";
  uri = "/v1/search";
  method = "POST";
  uri_regex = none;
  upstream_id = some "urban@1";
  service_id = some "urban-api";
  exposure = "internal";
  backend = none;
  rewrite_uri = some "/search";
  rate_limit = 100;
  policy = record {
    identity = "M2M";
    allowed_service_identities = "installation://iam.workloadClients.mcpServer" ∷ [];
    allowed_actor_types = "HUMAN_USER" ∷ [];
    max_request_bytes = 8;
    timeout_seconds = 5;
    required_scope = some "urban.read";
    required_audience = none;
  };
  route_capability = some search;
  recovery = some (record {
    owner = "urban";
    service = "urban-api";
    path_template = "/outcomes/{backendRequestId}";
  });
  strip_client_headers = [];
  claim_projection = [];
  mediation = none;
}

abbrev compiled : List CompiledRoute
compiled = search_route ∷ []

abbrev table : Dict Bound
table = ("urban.search", record { route = search_route; capability = search }) ∷ []

table_bound : bind_routes "mcp" compiled [] ≡ ok table
unfolding bind_routes bind_route is_mcp_route lookup insert
table_bound = refl

abbrev caller : TrustedIdentity
caller = record {
  service_principal_id = "mcp";
  principal_id = "anna";
  tenant_id = "trieste";
  actor_type = "HUMAN_USER";
  authentication_context_ref = "ctx";
  authorization_decision_ref = "decision";
  scopes = "urban.read" ∷ "mcp.attempt.recover" ∷ [];
}

abbrev envelope : Envelope
envelope = record {
  gateway_binding_ref = "capability://urban.search";
  capability_id = "urban.search";
  owner = "urban";
  operation_class = "READ";
  arguments = ("type", "bench") ∷ [];
  identity = record {
    service_principal_id = "mcp";
    principal_id = "anna";
    tenant_id = "trieste";
    actor_type = "HUMAN_USER";
    authentication_context_ref = "ctx";
  };
  authorization_decision_ref = "decision";
  correlation_id = "c1";
  idempotency_key = "k1";
  attempt_id = "a1";
}

abbrev request_headers : Dict String
request_headers =
    ("x-correlation-id", "c1") ∷ ("Idempotency-Key", "k1") ∷ ("X-Tool-Attempt-ID", "a1") ∷ []

abbrev decode_envelope : Bytes → Outcome String Envelope
decode_envelope [] = raised "empty"
decode_envelope (b ∷ bs) = ok envelope

abbrev encode_arguments : Dict String → Bytes
encode_arguments arguments = 123 ∷ 125 ∷ []

abbrev answer : UpstreamCall → Outcome Failure BackendResponse
answer call = ok (record {
  status = 200;
  body = 49 ∷ [];
  headers = ("Content-Type", "application/json") ∷ ("Server", "x") ∷ [];
})

abbrev response : BackendResponse
response = record {
  status = 200;
  body = 49 ∷ [];
  headers = ("Content-Type", "application/json") ∷ [];
}

dispatch_answered :
    (dispatch decode_envelope encode_arguments answer "mcp" table
      (1 ∷ 2 ∷ [])
      request_headers
      caller).1
    ≡ ok response
unfolding dispatch send admit lookup lacks_argument check_contract check_access check_headers
    governance_header header is_named lower_code allowed_services is_claimed upstream_call
    downstream_headers safe_response is_forwarded
dispatch_answered = refl

dispatch-Authorised_example :
    All
      (Authorised decode_envelope encode_arguments answer "mcp" compiled
        (1 ∷ 2 ∷ [])
        request_headers
        caller)
      (dispatch decode_envelope encode_arguments answer "mcp" table
        (1 ∷ 2 ∷ [])
        request_headers
        caller).0
dispatch-Authorised_example =
    dispatch-Authorised decode_envelope encode_arguments answer "mcp" compiled table (1 ∷ 2 ∷ [])
      request_headers caller table_bound

abbrev recovery_request : RecoveryRequest
recovery_request = record {
  backend_request_id = "b:1";
  owner = "urban";
  capability_id = "urban.search";
  correlation_id = "c1";
}

abbrev decode_request : Bytes → Outcome String RecoveryRequest
decode_request [] = raised "empty"
decode_request (b ∷ bs) = ok recovery_request

abbrev parse_evidence : Bytes → Option (Dict Json)
parse_evidence body = some (("BackendRequestID", text "b:1") ∷ ("Outcome", text "UNKNOWN") ∷ [])

abbrev encode_outcome : OwnerOutcome → Bytes
encode_outcome o = o.actual_tool_calls ∷ o.actual_result_bytes ∷ []

abbrev candidates : Dict Candidate
candidates =
    (
      "urban.search",
      record {
        binding = record {
          owner = "urban";
          service = "urban-api";
          path_template = "/outcomes/{backendRequestId}";
        };
        policy = search_route.policy;
      },
    )
    ∷ []

abbrev recovered : BackendResponse
recovered = record {
  status = 200;
  body = 0 ∷ 0 ∷ [];
  headers = ("Content-Type", "application/json") ∷ [];
}

request_recovered :
    (recover decode_request parse_evidence encode_outcome answer "mcp" candidates
      (1 ∷ [])
      request_headers
      caller).1
    ≡ ok recovered
unfolding recover lookup first_header is_named
request_recovered = refl

recover-IsRecovered_example :
    IsRecovered decode_request parse_evidence encode_outcome answer "mcp" (1 ∷ []) caller recovered
recover-IsRecovered_example =
    recover-IsRecovered decode_request parse_evidence encode_outcome answer "mcp" candidates
      (1 ∷ []) request_headers caller recovered request_recovered

abbrev owner_workload : TrustedIdentity
owner_workload = record caller {
  service_principal_id = "ouf-udp-object-resolution";
  scopes = "mcp.evidence.submit" ∷ [];
}

abbrev payload : EvidencePayload
payload = record {
  backend_owner = none;
  backend_request_id = "b:1";
  kind = "OWNER_RESULT";
  terminal_state = "SUCCEEDED";
  outcome_code = "DONE";
  result_ref = some "result://1";
  actual_distinct_objects = 1;
  object_hashes = "v1:hmac-sha256:0123" ∷ [];
}

abbrev decode_payload : Bytes → Outcome String EvidencePayload
decode_payload [] = raised "empty"
decode_payload (b ∷ bs) = ok payload

abbrev encode_evidence : CanonicalEvidence → Bytes
encode_evidence e = e.actual_distinct_objects ∷ []

ingest-IsOwnEvidence_example :
    All
      (IsOwnEvidence decode_payload encode_evidence answer (1 ∷ []) owner_workload)
      (ingest decode_payload encode_evidence answer (1 ∷ []) request_headers owner_workload).0
ingest-IsOwnEvidence_example =
    ingest-IsOwnEvidence decode_payload encode_evidence answer (1 ∷ []) request_headers
      owner_workload
