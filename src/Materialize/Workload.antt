-- ===== src/Materialize/Workload.antt =====
-- The facts of an internal workload route, as tools/materialize_apisix_internal_m2m_routes.py checks them.
use package.text.Mathlib.Text.{starts_with}
use ouf_api_gateway.Base.{
  Bool, not, ◌&&◌, ◌||◌, String, List, [], ◌∷◌, ◌==◌, ◌≠◌, nat_eq, string_eq, Outcome, ok, any,
  forbid, require,
}
use ouf_api_gateway.Base.Int.{pos}
use ouf_api_gateway.Document.{
  ◌>>=◌, Value, integer, text, array, ToolError, rejected, field, items_of, is_dict, or_empty,
  is_text, same_value,
}
use ouf_api_gateway.Document.Names.{is_name, drop_slashes}
use ouf_api_gateway.Materialize.{
  plugin, require_text, is_secret_ref, is_port, is_one_of, texts_of, given, is_wildcard, is_bounded,
}

-- What the checks of `materialize_route` read.
pub record Facts : Type 0 where
  pub allowed_services : List String
  pub scope : String
  pub issuer : String
  pub audience : String
  pub service : String
  pub port : Value
  pub backend_path : String
  pub uri : String
  pub methods : Value
  pub request_id : Value
  pub limit_count : Value
  pub id : String
  pub installation_id : String
  pub revision : Value
  pub capability_id : String

abbrev pub methods_allowed : List String
methods_allowed = "GET" ∷ "POST" ∷ "PUT" ∷ "DELETE" ∷ []

-- The managed-file route may go to the reviewed upstream only.
abbrev pub is_unverified_remote : Value → String → Value → Bool
is_unverified_remote id service port =
    is_text "onboarding-managed-file-read" id
    && (service ≠ "ouf-onboarding" || not (same_value port (integer (pos 8080))))

-- The services that the policy allows: nonempty texts, none of them a reference to be projected.
unfoldable pub allowed_services_of : Value → Outcome ToolError (List String)
allowed_services_of policy = do
  allowed ← field "allowedServiceIdentities" policy
  services ← given (texts_of (items_of allowed)) "allowed service identities are required"
  projected ←
      forbid (any (λ s. starts_with s "installation://") services)
        (rejected "installation service identities must be projected before materialization")
  ok services

unfoldable pub check_policy : Value → Value → Outcome ToolError (Unit {0})
check_policy labels policy = do
  exposure ← field "exposure" (or_empty labels)
  internal ← require (is_text "internal" exposure) (rejected "only internal routes are supported")
  governed ← require (is_dict policy) (rejected "internal materializer requires M2M identity")
  identity ← require_text "identity" policy
  require (identity == "M2M") (rejected "internal materializer requires M2M identity")

-- The checks of `materialize_route`, in the order of the source, up to the plugins.
unfoldable pub facts_of : Value → Value → String → Outcome ToolError Facts
unfolding check_policy allowed_services_of
facts_of route installation oidc_secret_ref = do
  labels ← field "labels" route
  policy ← field "x-ouf-policy" route
  backend ← field "x-ouf-backend-binding" route
  capability ← field "x-ouf-capability" route
  m2m ← check_policy labels policy
  bound ← require (is_dict backend) (rejected "compiled backend binding is required")
  governed ← require (is_dict capability) (rejected "governed capability metadata is required")
  services ← allowed_services_of policy
  actors ← field "allowedActorTypes" policy
  workload ←
      require (same_value actors (array (text "SERVICE" ∷ [])))
        (rejected "internal workload route must allow only SERVICE actor")
  scope ← require_text "requiredScope" policy
  secret ←
      require (is_secret_ref oidc_secret_ref)
        (rejected "OIDC client secret must be an APISIX secret reference")
  issuer ← require_text "issuerUrl" installation
  audience ← require_text "gatewayAudience" installation
  service ← require_text "service" backend
  port ← field "port" backend
  backend_path ← require_text "path" backend
  uri ← require_text "uri" route
  methods ← field "methods" route
  numbered ← require (is_port port) (rejected "invalid backend port")
  named ← require (is_name service) (rejected "invalid backend service")
  route_id ← field "id" route
  verified ←
      forbid (is_unverified_remote route_id service port)
        (rejected "managed-file remote upstream requires a verified transport profile")
  single ← is_one_of methods_allowed (items_of methods)
  supported ← require single (rejected "exactly one supported method is required")
  bounded ←
      forbid (is_wildcard uri && not (is_bounded uri backend_path))
        (rejected "wildcard route must preserve exact bounded namespace")
  request_id ← plugin "request-id" route
  limit_count ← plugin "limit-count" route
  id ← require_text "id" route
  installation_id ← require_text "installationId" installation
  revision ← field "revision" installation
  capability_id ← require_text "capabilityId" capability
  ok record {
    allowed_services = services;
    scope = scope;
    issuer = drop_slashes issuer;
    audience = audience;
    service = service;
    port = port;
    backend_path = backend_path;
    uri = uri;
    methods = methods;
    request_id = request_id;
    limit_count = limit_count;
    id = id;
    installation_id = installation_id;
    revision = revision;
    capability_id = capability_id;
  }
