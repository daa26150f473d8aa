-- ===== src/Materialize/Human.antt =====
-- The facts of a route for people, as tools/materialize_trusted_human_onboarding_runtime.py checks them.
use package.text.Mathlib.Text.{starts_with}
use ouf_api_gateway.Base.{
  ℕ, Bool, not, ◌&&◌, ◌||◌, Option, none, some, String, List, [], ◌∷◌, ◌==◌, ◌≠◌, nat_eq, string_eq,
  Outcome, ok, raised, if◌then◌else◌, forbid, require, leb,
}
use ouf_api_gateway.Base.Int.{ℤ, pos, negsuc}
use ouf_api_gateway.Document.{
  ◌>>=◌, Value, null, flag, integer, text, items, fields, array, ToolError, rejected, type_error,
  field, text_of, items_of, is_dict, or_empty, is_text, same_value, find,
}
use ouf_api_gateway.Document.Names.{is_name, drop_slashes}
use ouf_api_gateway.Document.Numbers.{to_int}
use ouf_api_gateway.Materialize.{
  require_text, is_secret_ref, is_port, is_one_of, is_wildcard, is_bounded, plugin,
}

pub record HumanFacts : Type 0 where
  pub issuer : String
  pub audience : String
  pub scope : String
  pub service : String
  pub port : Value
  pub uri : String
  pub backend_path : String
  pub methods : Value
  pub timeout : ℕ
  pub request_id : Value
  pub limit_count : Value
  pub max_body : ℤ
  pub is_upload : Bool
  pub id : String
  pub installation_id : String
  pub revision : Value
  pub capability_id : String

abbrev pub or_default : Value → Option Value → Value
or_default d none = d
or_default d (some v) = v

-- `v.get(key, d)`
abbrev pub field_or : Value → String → Value → Outcome ToolError Value
field_or d key (fields fs) = ok (or_default d (find key fs))
field_or d key null = raised type_error
field_or d key (flag b) = raised type_error
field_or d key (integer n) = raised type_error
field_or d key (text s) = raised type_error
field_or d key (items xs) = raised type_error

-- `type(timeout) is int and 1 <= timeout <= 60`: a Boolean is none here.
abbrev pub timeout_of : Value → Outcome ToolError ℕ
timeout_of (integer (pos n)) =
    if leb 1 n && leb n 60
    then ok n
    else raised (rejected "bounded HUMAN lifecycle timeout required")
timeout_of (integer (negsuc n)) = raised (rejected "bounded HUMAN lifecycle timeout required")
timeout_of null = raised (rejected "bounded HUMAN lifecycle timeout required")
timeout_of (flag b) = raised (rejected "bounded HUMAN lifecycle timeout required")
timeout_of (text s) = raised (rejected "bounded HUMAN lifecycle timeout required")
timeout_of (items xs) = raised (rejected "bounded HUMAN lifecycle timeout required")
timeout_of (fields fs) = raised (rejected "bounded HUMAN lifecycle timeout required")

-- `id.startswith("trusted-human-managed-file-")`: no text has no such method.
abbrev pub is_managed_file : Option String → Outcome ToolError Bool
is_managed_file none = raised type_error
is_managed_file (some id) = ok (starts_with id "trusted-human-managed-file-")

abbrev pub human_methods : List String
human_methods = "GET" ∷ "POST" ∷ "PUT" ∷ []

unfoldable pub check_surface : Value → Value → Outcome ToolError (Unit {0})
check_surface labels policy = do
  exposure ← field "exposure" (or_empty labels)
  public ← require (is_text "public" exposure) (rejected "trusted HUMAN route must be public")
  governed ← require (is_dict policy) (rejected "trusted HUMAN route requires OIDC")
  identity ← require_text "identity" policy
  oidc ← require (identity == "OIDC") (rejected "trusted HUMAN route requires OIDC")
  actors ← field "allowedActorTypes" policy
  require (same_value actors (array (text "HUMAN" ∷ [])))
      (rejected "trusted HUMAN route must allow only HUMAN")

-- The checks of `materialize_route`, in the order of the source.
unfoldable pub human_facts_of : Value → Value → String → Outcome ToolError HumanFacts
unfolding check_surface to_int
human_facts_of route installation oidc_secret_ref = do
  labels ← field "labels" route
  policy ← field "x-ouf-policy" route
  backend ← field "x-ouf-backend-binding" route
  capability ← field "x-ouf-capability" route
  surface ← check_surface labels policy
  compiled ←
      require (is_dict backend && is_dict capability) (rejected "compiled route metadata required")
  secret ←
      require (is_secret_ref oidc_secret_ref)
        (rejected "OIDC client secret must be an APISIX secret reference")
  issuer ← require_text "issuerUrl" installation
  audience ← require_text "gatewayAudience" installation
  scope ← require_text "requiredScope" policy
  service ← require_text "service" backend
  port ← field "port" backend
  uri ← require_text "uri" route
  backend_path ← require_text "path" backend
  methods ← field "methods" route
  seconds ← field_or (integer (pos 10)) "timeoutSeconds" policy
  timeout ← timeout_of seconds
  valid ← require (is_port port && is_name service) (rejected "invalid backend")
  route_id ← field_or (text " ") "id" route
  managed ← is_managed_file (text_of route_id)
  verified ←
      forbid (managed && (service ≠ "ouf-onboarding" || not (same_value port (integer (pos 8080)))))
        (rejected "managed-file remote upstream requires a verified transport profile")
  single ← is_one_of human_methods (items_of methods)
  supported ← require single (rejected "unsupported HUMAN lifecycle method")
  bounded ←
      forbid (is_wildcard uri && not (is_bounded uri backend_path))
        (rejected "wildcard HUMAN route must preserve bounded namespace")
  request_id ← plugin "request-id" route
  limit_count ← plugin "limit-count" route
  max_bytes ← field_or (integer (pos 5242880)) "maxRequestBytes" policy
  max_body ← to_int max_bytes
  id ← require_text "id" route
  installation_id ← require_text "installationId" installation
  revision ← field "revision" installation
  capability_id ← require_text "capabilityId" capability
  ok record {
    issuer = drop_slashes issuer;
    audience = audience;
    scope = scope;
    service = service;
    port = port;
    uri = uri;
    backend_path = backend_path;
    methods = methods;
    timeout = timeout;
    request_id = request_id;
    limit_count = limit_count;
    max_body = max_body;
    is_upload = is_text "trusted-human-managed-file-upload" route_id;
    id = id;
    installation_id = installation_id;
    revision = revision;
    capability_id = capability_id;
  }
