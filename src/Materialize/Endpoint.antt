-- ===== src/Materialize/Endpoint.antt =====
-- tools/materialize_apisix_runtime.py: the public MCP endpoint and its protected-resource metadata.
pub mod Selection
pub mod Metadata
pub mod Documents
pub mod Published
use Prim.Native.String
use package.text.Mathlib.Text.{starts_with}
use ouf_api_gateway.Base.{
  ℕ, Bool, true, false, not, ◌&&◌, ◌||◌, Option, none, some, String, List, [], ◌∷◌, ◌==◌, ◌≠◌,
  nat_eq, string_eq, Outcome, ok, raised, if◌then◌else◌, forbid, require, ◌++◌, contains, select,
}
use ouf_api_gateway.Base.Int.{ℤ, pos}
use ouf_api_gateway.Base.Text.{sort_by}
use ouf_api_gateway.Document.{
  ◌>>=◌, Value, null, flag, integer, text, items, fields, Fields, object, array, ToolError,
  rejected, type_error, field, text_of, items_of, is_dict, or_empty, is_text, same_value, find,
}
use ouf_api_gateway.Document.Names.{is_name, drop_slashes}
use ouf_api_gateway.Document.Numbers.{to_int}
use ouf_api_gateway.Materialize.{
  require_text, is_secret_ref, is_port, texts_of, given, node_name, field_or_object, field_or_empty,
  iterated,
}
use ouf_api_gateway.Materialize.Human.{field_or}
use ouf_api_gateway.Materialize.Guards.{trusted_pre_function, trusted_post_function}

-- What `urllib.parse.urlsplit` tells of an address.
pub record SplitUrl : Type 0 where
  pub scheme : String
  pub hostname : Option String
  pub username : Option String
  pub password : Option String
  pub path : String
  pub query : String
  pub fragment : String

abbrev pub is_given : Option String → Bool
is_given none = false
is_given (some s) = true

abbrev pub has_host : Option String → Bool
has_host none = false
has_host (some s) = not (s == "")

-- The guard of `require_https_url`, negated.
abbrev pub is_canonical : Bool → SplitUrl → Bool
is_canonical origin_only u =
    u.scheme == "https"
    && has_host u.hostname
    && not (is_given u.username)
    && not (is_given u.password)
    && u.query == ""
    && u.fragment == ""
    && (not origin_only || u.path == "" || u.path == "/")

-- `PROTECTED_RESOURCE_METADATA_PATH`
abbrev pub metadata_path : String
metadata_path = "/.well-known/oauth-protected-resource"

pub record EndpointFacts : Type 0 where
  pub audience : String
  pub required_scope : String
  pub allowed_actors : List String
  pub issuer : String
  pub public_api_base : String
  pub service : String
  pub port : Value
  pub stripped : List String
  pub request_id : Value
  pub limit_count : Value
  pub max_body : ℤ
  pub id : String
  pub installation_id : String
  pub revision : Value

-- `route.get("plugins", {}).get(key, {})`
abbrev pub plain_plugin : String → Value → Outcome ToolError Value
plain_plugin key route = field_or_object "plugins" route >>= λ plugins. field_or_object key plugins

abbrev pub header : Option String → Outcome ToolError String
header none = raised type_error
header (some s) = ok s

-- The names to strip; `sorted` and `json.dumps` are reached with texts only.
unfoldable pub headers_of : List Value → Outcome ToolError (List String)
headers_of [] = ok []
headers_of (v ∷ vs) = do name ← header (text_of v); rest ← headers_of vs; ok (name ∷ rest)

abbrev pub strip_list : Option (List Value) → Outcome ToolError (List Value)
strip_list none = raised (rejected "trusted header strip list is required")
strip_list (some []) = raised (rejected "trusted header strip list is required")
strip_list (some (v ∷ vs)) = ok (v ∷ vs)

abbrev pub own_name : String → String
own_name name = name

-- `set(names)`, of which the order does not count
unfoldable pub distinct : List String → List String
distinct [] = []
distinct (s ∷ ss) = if contains ss s then distinct ss else s ∷ distinct ss

module _ (urlsplit : String → SplitUrl) where
  -- `require_https_url(obj, key, origin_only=...)`
  unfoldable pub require_https_url : Bool → String → Value → Outcome ToolError String
  require_https_url origin_only key obj = do
    value ← require_text key obj
    canonical ← require (is_canonical origin_only (urlsplit (drop_slashes value))) (rejected key)
    ok (drop_slashes value)

  -- The checks of `materialize_mcp_route`, in the order of the source.
  unfoldable pub endpoint_facts_of : Value → Value → String → Outcome ToolError EndpointFacts
  unfolding require_https_url headers_of to_int
  endpoint_facts_of route installation oidc_secret_ref = do
    uri ← field "uri" route
    mcp ← require (is_text "/mcp" uri) (rejected "MCP endpoint materializer only accepts /mcp")
    methods ← field "methods" route
    post ←
        require (same_value methods (array (text "POST" ∷ []))) (rejected "/mcp must be POST-only")
    policy ← field "x-ouf-policy" route
    trusted ← field "x-ouf-trusted-identity" route
    backend ← field "x-ouf-backend-binding" route
    governed ←
        require (is_dict policy && is_dict trusted && is_dict backend)
          (rejected "missing governed MCP route metadata")
    identity ← require_text "identity" policy
    oidc ← require (identity == "OIDC") (rejected "/mcp requires OIDC")
    audience ← require_text "requiredAudience" policy
    required_scope ← require_text "requiredScope" policy
    actors ← field "allowedActorTypes" policy
    allowed_actors ← given (texts_of (items_of actors)) "missing MCP allowedActorTypes"
    issuer ← require_https_url false "issuerUrl" installation
    public_api_base ← require_https_url true "publicApiBaseUrl" installation
    service ← require_text "service" backend
    port ← field "port" backend
    path ← require_text "path" backend
    kept ← require (path == "/mcp") (rejected "MCP backend path must remain /mcp")
    numbered ← require (is_port port) (rejected "invalid MCP backend port")
    named ← require (is_name service) (rejected "invalid MCP backend service")
    strip ← field "stripClientHeaders" trusted
    listed ← strip_list (items_of strip)
    injected ← field "injectAfterVerification" trusted
    marked ←
        require (same_value injected (object (("X-OUF-Gateway-Verified", text "true") ∷ [])))
          (rejected "Gateway verified marker contract changed")
    secret ←
        require (is_secret_ref oidc_secret_ref)
          (rejected "OIDC client secret must be an APISIX secret reference")
    request_id ← plain_plugin "request-id" route
    limit_count ← plain_plugin "limit-count" route
    max_bytes ← field_or (integer (pos 1048576)) "maxRequestBytes" policy
    max_body ← to_int max_bytes
    stripped ← headers_of listed
    id ← require_text "id" route
    installation_id ← require_text "installationId" installation
    revision ← field "revision" installation
    ok record {
      audience = audience;
      required_scope = required_scope;
      allowed_actors = allowed_actors;
      issuer = issuer;
      public_api_base = public_api_base;
      service = service;
      port = port;
      stripped = stripped;
      request_id = request_id;
      limit_count = limit_count;
      max_body = max_body;
      id = id;
      installation_id = installation_id;
      revision = revision;
    }
