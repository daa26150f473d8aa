-- ===== src/Config/Routes.antt =====
-- The three loops of `compile_config` over the documents, and the output.
use text.Mathlib.Text.{starts_with}
use ouf_api_gateway.Base.{
  Bool, true, not, ◌&&◌, ◌||◌, Option, none, some, String, List, [], ◌∷◌, Outcome, ok, raised,
  forbid, require, ◌>>◌, ◌>>=◌, ◌==◌, string_eq, all, contains, is_empty,
}
use ouf_api_gateway.Base.Text.{sort_by}
use ouf_api_gateway.Config.Documents.{
  RouteBinding, McpEndpointBinding, McpMediationBinding, Document, route, mcp_endpoint,
  mcp_mediation, find_capability, find_source, find_extraction,
}
use ouf_api_gateway.Config.Compile.{
  ConfigError, unresolved_capability_ref, unresolved_source_ref, unresolved_extraction_ref,
  internal_without_identities, public_without_token, ungoverned_endpoint_scheme,
  duplicate_route_match, wildcard_not_exact, regex_not_anchored, endpoint_not_service,
  headers_not_stripped, projection_incomplete, Build, CompiledRoute, is_taken, claim, check_index,
  check_extractions, is_wildcard, is_there, is_governed_scheme, is_exact_wildcard,
  is_regex_accepted, compiled_route,
}

-- `.get(...)` and the `raise` for a missing document.
unfoldable pub resolve : {A : Type 0} → Option A → ConfigError → Outcome ConfigError A
resolve none e = raised e
resolve (some a) e = ok a

-- An extraction reference that is absent or empty is not resolved.
unfoldable pub is_extraction_resolved : Option String → List Document → Bool
is_extraction_resolved none docs = true
is_extraction_resolved (some r) docs = (r == "") || is_there (find_extraction r docs)

unfoldable pub add_route : List Document → RouteBinding → Build → Outcome ConfigError Build
unfolding resolve is_extraction_resolved
add_route docs r b = do
  c ← resolve (find_capability r.capability_ref docs) unresolved_capability_ref
  s ← resolve (find_source r.source_ref docs) unresolved_source_ref
  require (is_extraction_resolved r.extraction_profile_ref docs) unresolved_extraction_ref
  forbid ((r.exposure == "internal") && is_empty r.allowed_service_identities)
      internal_without_identities
  forbid ((r.exposure == "public") && not (contains ("OIDC" ∷ "M2M" ∷ []) r.identity))
      public_without_token
  require (is_governed_scheme s.endpoint_ref) ungoverned_endpoint_scheme
  forbid (is_taken r.method r.path r.uri_regex b) duplicate_route_match
  forbid (is_wildcard r.path && not (is_exact_wildcard r)) wildcard_not_exact
  require (is_regex_accepted r.path r.uri_regex) regex_not_anchored
  ok (claim r.method r.path r.uri_regex (compiled_route r c s) b)

unfoldable pub add_routes : List Document → List Document → Build → Outcome ConfigError Build
add_routes docs [] b = ok b
add_routes docs (route r ∷ rest) b = add_route docs r b >>= λ b'. add_routes docs rest b'
add_routes docs (_ ∷ rest) b = add_routes docs rest b

abbrev pub projected_headers : List String
projected_headers =
    "X-OUF-Service-Principal" ∷ "X-OUF-Principal-ID" ∷ "X-OUF-Tenant-ID" ∷ "X-OUF-Actor-Type"
    ∷ "X-OUF-Authentication-Context-Ref" ∷ "X-OUF-Token-Issuer" ∷ "X-OUF-Token-Audience"
    ∷ "X-OUF-Granted-Scopes" ∷ []

abbrev pub required_trusted : List String
required_trusted = "X-OUF-Gateway-Verified" ∷ projected_headers

abbrev pub is_subset : List String → List String → Bool
is_subset xs ys = all (contains ys) xs

unfoldable pub compiled_endpoint : McpEndpointBinding → CompiledRoute
compiled_endpoint e = record {
  id = e.metadata.id;
  uri = e.path;
  method = e.method;
  uri_regex = none;
  upstream_id = some e.source_ref;
  service_id = some e.backend.service;
  exposure = e.exposure;
  backend = some e.backend;
  rewrite_uri = some e.backend.path;
  rate_limit = 60;
  policy = record {
    identity = e.identity;
    allowed_service_identities = [];
    allowed_actor_types = e.allowed_actor_types;
    max_request_bytes = e.max_request_bytes;
    timeout_seconds = e.timeout_seconds;
    required_scope = some e.required_scope;
    required_audience = some e.required_audience;
  };
  route_capability = none;
  recovery = none;
  strip_client_headers = sort_by (λ h. h) e.strip_client_headers;
  claim_projection = e.claim_projection;
  mediation = none;
}

unfoldable pub add_endpoint : List Document → McpEndpointBinding → Build → Outcome ConfigError Build
unfolding resolve
add_endpoint docs e b = do
  s ← resolve (find_source e.source_ref docs) unresolved_source_ref
  require (starts_with s.endpoint_ref "service://") endpoint_not_service
  forbid (is_taken e.method e.path none b) duplicate_route_match
  require (is_subset required_trusted e.strip_client_headers) headers_not_stripped
  require
      (is_subset e.claim_projection projected_headers
        && is_subset projected_headers e.claim_projection)
      projection_incomplete
  ok (claim e.method e.path none (compiled_endpoint e) b)

unfoldable pub add_endpoints : List Document → List Document → Build → Outcome ConfigError Build
add_endpoints docs [] b = ok b
add_endpoints docs (mcp_endpoint e ∷ rest) b =
    add_endpoint docs e b >>= λ b'. add_endpoints docs rest b'
add_endpoints docs (_ ∷ rest) b = add_endpoints docs rest b

unfoldable pub compiled_mediation : McpMediationBinding → CompiledRoute
compiled_mediation m = record {
  id = m.metadata.id;
  uri = m.path;
  method = m.method;
  uri_regex = none;
  upstream_id = none;
  service_id = none;
  exposure = "internal";
  backend = none;
  rewrite_uri = none;
  rate_limit = 120;
  policy = record {
    identity = m.identity;
    allowed_service_identities = [];
    allowed_actor_types = [];
    max_request_bytes = m.max_request_bytes;
    timeout_seconds = m.timeout_seconds;
    required_scope = m.required_scope;
    required_audience = none;
  };
  route_capability = none;
  recovery = none;
  strip_client_headers = [];
  claim_projection = [];
  mediation = some (m.mode, m.service_identity_ref);
}

unfoldable pub add_mediation : McpMediationBinding → Build → Outcome ConfigError Build
add_mediation m b = do
  forbid (is_taken m.method m.path none b) duplicate_route_match
  ok (claim m.method m.path none (compiled_mediation m) b)

unfoldable pub add_mediations : List Document → Build → Outcome ConfigError Build
add_mediations [] b = ok b
add_mediations (mcp_mediation m ∷ rest) b = add_mediation m b >>= λ b'. add_mediations rest b'
add_mediations (_ ∷ rest) b = add_mediations rest b

abbrev pub empty_build : Build
empty_build = record { routes = []; matches = []; selected_matches = [] }

-- The routes of the output, in the order of their ids; the hash over them is the publication's.
unfoldable pub compile_config : List Document → Outcome ConfigError (List CompiledRoute)
compile_config docs = do
  check_index docs
  check_extractions docs docs
  b ← add_routes docs docs empty_build
  b' ← add_endpoints docs docs b
  b'' ← add_mediations docs b'
  ok (sort_by (λ (r : CompiledRoute). r.id) b''.routes)
