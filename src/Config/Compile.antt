-- ===== src/Config/Compile.antt =====
-- `compile_config` of tools/compile_config.py: the checks and the routes, document by document.
use Prim.Native.String
use text.Mathlib.Text.{starts_with}
use ouf_api_gateway.Base.{
  ℕ, Bool, true, false, ◌&&◌, ◌||◌, Option, none, some, String, List, [], ◌∷◌, ◌++◌, Outcome, ok,
  raised, ◌==◌, string_eq, nat_eq, option_eq, leb, ltb, if◌then◌else◌, truthy, any,
}
use ouf_api_gateway.Base.Text.{ends_with, count_code, drop_last}
use ouf_api_gateway.Config.Documents.{
  Capability, SourceRuntimeProfile, BackendBinding, RouteBinding, Document, extraction,
  capability_kind, source_kind, extraction_kind, route_kind, endpoint_kind, mediation_kind, Kind,
  kind_of, metadata_of, ref, find_source,
}

pub data ConfigError : Type 0 where
  duplicate_document unresolved_source_ref unresolved_capability_ref : ConfigError
  unresolved_extraction_ref internal_without_identities public_without_token : ConfigError
  ungoverned_endpoint_scheme duplicate_route_match wildcard_not_exact regex_not_anchored :
      ConfigError
  endpoint_not_service headers_not_stripped projection_incomplete : ConfigError

pub record Policy : Type 0 where
  pub identity : String
  pub allowed_service_identities : List String
  pub allowed_actor_types : List String
  pub max_request_bytes : ℕ
  pub timeout_seconds : ℕ
  pub required_scope : Option String
  pub required_audience : Option String

pub record RouteCapability : Type 0 where
  pub capability_id : String
  pub version : String
  pub owner : String
  pub operation_type : String
  pub tool_eligible : Bool
  pub human_required : Bool

pub record RecoveryBinding : Type 0 where
  pub owner : String
  pub service : String
  pub path_template : String

pub record CompiledRoute : Type 0 where
  pub id : String
  pub uri : String
  pub method : String
  pub uri_regex : Option String
  pub upstream_id : Option String
  pub service_id : Option String
  pub exposure : String
  pub backend : Option BackendBinding
  -- `plugins["proxy-rewrite"]["uri"]`
  pub rewrite_uri : Option String
  pub rate_limit : ℕ
  pub policy : Policy
  pub route_capability : Option RouteCapability
  pub recovery : Option RecoveryBinding
  pub strip_client_headers : List String
  pub claim_projection : List String
  -- mode and service identity
  pub mediation : Option (String × String)

-- The routes so far, the pairs of method and path that are taken whole, and those that are taken
-- under a URI regex.
pub record Build : Type 0 where
  pub routes : List CompiledRoute
  pub matches : List (String × String)
  pub selected_matches : List (String × String × String)

abbrev pub is_pair : String → String → String × String → Bool
is_pair method path (m, p) = (m == method) && (p == path)

abbrev pub is_selected : String → String → String × String × String → Bool
is_selected method path (m, p, r) = (m == method) && (p == path)

abbrev pub is_triple : String → String → String → String × String × String → Bool
is_triple method path regex (m, p, r) = (m == method) && (p == path) && (r == regex)

-- The test for a duplicate route match.
unfoldable pub is_taken : String → String → Option String → Build → Bool
is_taken method path none b =
    any (is_pair method path) b.matches || any (is_selected method path) b.selected_matches
is_taken method path (some regex) b =
    any (is_pair method path) b.matches || any (is_triple method path regex) b.selected_matches

unfoldable pub claim : String → String → Option String → CompiledRoute → Build → Build
claim method path none r b = record b {
  routes = b.routes ++ (r ∷ []);
  matches = (method, path) ∷ b.matches;
}
claim method path (some regex) r b = record b {
  routes = b.routes ++ (r ∷ []);
  selected_matches = (method, path, regex) ∷ b.selected_matches;
}

unfoldable pub same_kind : Kind → Kind → Bool
same_kind capability_kind capability_kind = true
same_kind source_kind source_kind = true
same_kind extraction_kind extraction_kind = true
same_kind route_kind route_kind = true
same_kind endpoint_kind endpoint_kind = true
same_kind mediation_kind mediation_kind = true
same_kind _ _ = false

-- Two documents of one kind with one reference are refused.
unfoldable pub has_duplicate : Document → List Document → Bool
unfolding kind_of metadata_of ref
has_duplicate d [] = false
has_duplicate d (e ∷ docs) =
    (same_kind (kind_of d) (kind_of e) && (ref (metadata_of d) == ref (metadata_of e)))
    || has_duplicate d docs

unfoldable pub check_index : List Document → Outcome ConfigError (Unit {0})
unfolding has_duplicate
check_index [] = ok tt
check_index (d ∷ docs) =
    let rest = check_index docs in if has_duplicate d docs then raised duplicate_document else rest

unfoldable pub is_there {ℓ} : {A : Type ℓ} → Option A → Bool
is_there none = false
is_there (some a) = true

unfoldable pub check_extractions : List Document → List Document → Outcome ConfigError (Unit {0})
unfolding is_there
check_extractions all_docs [] = ok tt
check_extractions all_docs (extraction e ∷ docs) =
    let rest = check_extractions all_docs docs in
    if is_there (find_source e.source_ref all_docs) then rest else raised unresolved_source_ref
check_extractions all_docs (_ ∷ docs) = check_extractions all_docs docs

unfoldable pub is_wildcard : String → Bool
is_wildcard path = ltb 0 (count_code b'*' path)

-- `endpoint_ref.startswith(("service://", "object://", "registry://"))`
unfoldable pub is_governed_scheme : String → Bool
is_governed_scheme e =
    starts_with e "service://" || starts_with e "object://" || starts_with e "registry://"

unfoldable pub is_exact_wildcard : RouteBinding → Bool
is_exact_wildcard r =
    ends_with r.path "/*" && (count_code b'*' r.path == 1) && (r.backend.path == r.path)

unfoldable pub is_anchored : String → String → Bool
unfolding is_wildcard
is_anchored path regex =
    is_wildcard path
    && starts_with regex (String.◌++◌ "^" (drop_last path))
    && ends_with regex "$"
    && leb (String.count regex) 256

-- A regex that is absent or empty is not checked.
unfoldable pub is_regex_accepted : String → Option String → Bool
unfolding is_anchored
is_regex_accepted path none = true
is_regex_accepted path (some regex) = (regex == "") || is_anchored path regex

abbrev recovery_of : Capability → RouteBinding → Option String → Option RecoveryBinding
recovery_of c r none = none
recovery_of c r (some path_template) =
    if path_template == ""
    then none
    else some
        (record { owner = c.owner; service = r.backend.service; path_template = path_template })

unfoldable pub compiled_route : RouteBinding → Capability → SourceRuntimeProfile → CompiledRoute
unfolding is_wildcard
compiled_route r c s = record {
  id = r.metadata.id;
  uri = r.path;
  method = r.method;
  uri_regex = if truthy r.uri_regex then r.uri_regex else none;
  upstream_id = some r.source_ref;
  service_id = some r.backend.service;
  exposure = r.exposure;
  backend = some r.backend;
  rewrite_uri = if is_wildcard r.path then none else some r.backend.path;
  rate_limit = 100;
  policy = record {
    identity = r.identity;
    allowed_service_identities = r.allowed_service_identities;
    allowed_actor_types = r.allowed_actor_types;
    max_request_bytes = r.max_request_bytes;
    timeout_seconds = r.timeout_seconds;
    required_scope = some c.scope;
    required_audience = none;
  };
  route_capability = some (record {
    capability_id = c.metadata.id;
    version = c.metadata.version;
    owner = c.owner;
    operation_type = c.operation_type;
    tool_eligible = c.tool_eligible;
    human_required = c.human_required;
  });
  recovery = recovery_of c r s.owner_outcome_path;
  strip_client_headers = [];
  claim_projection = [];
  mediation = none;
}
