-- ===== src/Materialize/Tests.antt =====
-- Compiled routes, and what the tools make of them.
use Prim.Native.String
use ouf_api_gateway.Base.{true, String, [], ◌∷◌, none, some, ◌≡◌, refl, ok}
use ouf_api_gateway.Base.Int.{pos}
use ouf_api_gateway.Document.{◌>>=◌, Value, integer, text, object, array, find, same_value}
use ouf_api_gateway.Base.Text.{count_code, ends_with}
use ouf_api_gateway.Document.Names.{
  strip, drop_space, drop_end, is_space, is_name, all_chars, is_alphanumeric, drop_slashes,
}
use ouf_api_gateway.Document.Numbers.{to_int}
use ouf_api_gateway.Materialize.{require_text}
use ouf_api_gateway.Deploy.Routes.{validate_routes, text_at}
use ouf_api_gateway.Materialize.Internal.{document_of, materialize_route}
use ouf_api_gateway.Materialize.Workload.{allowed_services_of, check_policy, Facts, facts_of}
use ouf_api_gateway.Materialize.Internal.Guarded.{IsGuarded, materialize_route-IsGuarded}
use ouf_api_gateway.Materialize.Internal.Accepted.{materialize_route-accepted}
use ouf_api_gateway.Materialize.Onboarding.{human_document, materialize_human_route}
use ouf_api_gateway.Materialize.Human.{check_surface, HumanFacts, human_facts_of}
use ouf_api_gateway.Materialize.Onboarding.Bounded.{IsBounded, materialize_human_route-IsBounded}
use ouf_api_gateway.Materialize.Endpoint.{
  SplitUrl, EndpointFacts, endpoint_facts_of, require_https_url, headers_of,
}
use ouf_api_gateway.Materialize.Endpoint.Documents.{endpoint_document, materialize_mcp_route}
use ouf_api_gateway.Materialize.Endpoint.Metadata.{
  protected_document, materialize_protected_resource_route,
}
use ouf_api_gateway.Materialize.Endpoint.Published.{materialize_protected-agrees}

abbrev str : Value → String
str v = "7"

abbrev quote : String → String
quote s = String.◌++◌ "\"" (String.◌++◌ s "\"")

abbrev dumps : Value → String
dumps v = "{}"

abbrev installation : Value
installation = object (
    ("issuerUrl", text "https://issuer.example/")
    ∷ ("gatewayAudience", text "gateway")
    ∷ ("publicApiBaseUrl", text "https://api.example")
    ∷ ("installationId", text "city")
    ∷ ("revision", integer (pos 7))
    ∷ ("checksum", text "c0ffee")
    ∷ [])

abbrev route : Value
route = object (
    ("id", text "udp-read")
    ∷ ("uri", text "/internal/udp/*")
    ∷ ("methods", array (text "GET" ∷ []))
    ∷ ("labels", object (("exposure", text "internal") ∷ []))
    ∷ (
      "x-ouf-policy",
      object (
          ("identity", text "M2M")
          ∷ ("allowedServiceIdentities", array (text "ouf-udp" ∷ []))
          ∷ ("allowedActorTypes", array (text "SERVICE" ∷ []))
          ∷ ("requiredScope", text "udp.read")
          ∷ []),
    )
    ∷ (
      "x-ouf-backend-binding",
      object (
          ("service", text "ouf-udp")
          ∷ ("port", integer (pos 8080))
          ∷ ("path", text "/internal/udp/*")
          ∷ []),
    )
    ∷ ("x-ouf-capability", object (("capabilityId", text "udp.read") ∷ []))
    ∷ [])

abbrev facts : Facts
facts = record {
  allowed_services = "ouf-udp" ∷ [];
  scope = "udp.read";
  issuer = "https://issuer.example";
  audience = "gateway";
  service = "ouf-udp";
  port = integer (pos 8080);
  backend_path = "/internal/udp/*";
  uri = "/internal/udp/*";
  methods = array (text "GET" ∷ []);
  request_id = object [];
  limit_count = object [];
  id = "udp-read";
  installation_id = "city";
  revision = integer (pos 7);
  capability_id = "udp.read";
}

abbrev made : Value
made = document_of str quote facts "$ENV://SECRET"

made_runs : materialize_route str quote route installation "$ENV://SECRET" ≡ ok made
unfolding materialize_route facts_of check_policy allowed_services_of ◌>>=◌ find require_text strip
    drop_space drop_end is_space same_value is_name all_chars is_alphanumeric drop_slashes
    count_code ends_with
made_runs = refl

materialize_route-IsGuarded_example :
    (f : Facts) × (document_of str quote f "$ENV://SECRET" ≡ made)
    × IsGuarded route "$ENV://SECRET" f
materialize_route-IsGuarded_example =
    materialize_route-IsGuarded str quote route installation "$ENV://SECRET" made made_runs

made_id : text_at "id" made ≡ ok "udp-read"
unfolding document_of find
made_id = refl

made_uri : text_at "uri" made ≡ ok "/internal/udp/*"
unfolding document_of find
made_uri = refl

id_named : is_name "udp-read" ≡ true
unfolding is_name all_chars is_alphanumeric
id_named = refl

materialize_route-accepted_example : validate_routes (array (made ∷ [])) ≡ ok ("udp-read" ∷ [])
materialize_route-accepted_example =
    materialize_route-accepted str quote route installation "$ENV://SECRET" made "udp-read"
      "/internal/udp/*" made_runs made_id id_named made_uri refl

abbrev human_route : Value
human_route = object (
    ("id", text "trusted-human-managed-file-upload")
    ∷ ("uri", text "/api/upload")
    ∷ ("methods", array (text "POST" ∷ []))
    ∷ ("labels", object (("exposure", text "public") ∷ []))
    ∷ (
      "x-ouf-policy",
      object (
          ("identity", text "OIDC")
          ∷ ("allowedActorTypes", array (text "HUMAN" ∷ []))
          ∷ ("requiredScope", text "onboarding")
          ∷ ("timeoutSeconds", integer (pos 60))
          ∷ []),
    )
    ∷ (
      "x-ouf-backend-binding",
      object (
          ("service", text "ouf-onboarding")
          ∷ ("port", integer (pos 8080))
          ∷ ("path", text "/upload")
          ∷ []),
    )
    ∷ ("x-ouf-capability", object (("capabilityId", text "upload") ∷ []))
    ∷ [])

abbrev human_facts : HumanFacts
human_facts = record {
  issuer = "https://issuer.example";
  audience = "gateway";
  scope = "onboarding";
  service = "ouf-onboarding";
  port = integer (pos 8080);
  uri = "/api/upload";
  backend_path = "/upload";
  methods = array (text "POST" ∷ []);
  timeout = 60;
  request_id = object [];
  limit_count = object [];
  max_body = pos 5242880;
  is_upload = true;
  id = "trusted-human-managed-file-upload";
  installation_id = "city";
  revision = integer (pos 7);
  capability_id = "upload";
}

abbrev human_made : Value
human_made = human_document str quote human_facts "$ENV://SECRET" true

human_runs :
    materialize_human_route str quote human_route installation "$ENV://SECRET" true ≡ ok human_made
unfolding materialize_human_route human_facts_of check_surface to_int ◌>>=◌ find require_text strip
    drop_space drop_end is_space same_value is_name all_chars is_alphanumeric drop_slashes
    count_code ends_with
human_runs = refl

materialize_human_route-IsBounded_example :
    (f : HumanFacts) × (human_document str quote f "$ENV://SECRET" true ≡ human_made)
    × IsBounded human_route "$ENV://SECRET" f
materialize_human_route-IsBounded_example =
    materialize_human_route-IsBounded str quote human_route installation "$ENV://SECRET" true
      human_made human_runs

-- An address of this test is split by its first characters.
abbrev split : String → SplitUrl
split s = record {
  scheme = "https";
  hostname = some "host.example";
  username = none;
  password = none;
  path = "";
  query = "";
  fragment = "";
}

abbrev endpoint : Value
endpoint = object (
    ("id", text "mcp")
    ∷ ("uri", text "/mcp")
    ∷ ("methods", array (text "POST" ∷ []))
    ∷ (
      "x-ouf-policy",
      object (
          ("identity", text "OIDC")
          ∷ ("requiredAudience", text "mcp")
          ∷ ("requiredScope", text "mcp.call")
          ∷ ("allowedActorTypes", array (text "HUMAN" ∷ text "AI_AGENT" ∷ []))
          ∷ []),
    )
    ∷ (
      "x-ouf-trusted-identity",
      object (
          ("stripClientHeaders", array (text "X-OUF-Tenant-ID" ∷ []))
          ∷ ("injectAfterVerification", object (("X-OUF-Gateway-Verified", text "true") ∷ []))
          ∷ []),
    )
    ∷ (
      "x-ouf-backend-binding",
      object (
          ("service", text "ouf-mcp-server")
          ∷ ("port", integer (pos 8080))
          ∷ ("path", text "/mcp")
          ∷ []),
    )
    ∷ [])

abbrev endpoint_facts : EndpointFacts
endpoint_facts = record {
  audience = "mcp";
  required_scope = "mcp.call";
  allowed_actors = "HUMAN" ∷ "AI_AGENT" ∷ [];
  issuer = "https://issuer.example";
  public_api_base = "https://api.example";
  service = "ouf-mcp-server";
  port = integer (pos 8080);
  stripped = "X-OUF-Tenant-ID" ∷ [];
  request_id = object [];
  limit_count = object [];
  max_body = pos 1048576;
  id = "mcp";
  installation_id = "city";
  revision = integer (pos 7);
}

abbrev endpoint_made : Value
endpoint_made = endpoint_document split str quote dumps endpoint_facts "$secret://vault/mcp"

abbrev protected_made : Value
protected_made =
    protected_document split str dumps "https://issuer.example" "https://api.example" "mcp.call"
      "city" (integer (pos 7)) (object [])

endpoint_runs :
    materialize_mcp_route split str quote dumps endpoint installation "$secret://vault/mcp"
    ≡ ok endpoint_made
unfolding materialize_mcp_route endpoint_facts_of require_https_url headers_of to_int ◌>>=◌ find
    require_text strip drop_space drop_end is_space same_value is_name all_chars is_alphanumeric
    drop_slashes count_code ends_with
endpoint_runs = refl

protected_runs :
    materialize_protected_resource_route split str dumps endpoint installation ≡ ok protected_made
unfolding materialize_protected_resource_route require_https_url ◌>>=◌ find require_text strip
    drop_space drop_end is_space same_value is_name all_chars is_alphanumeric drop_slashes
    count_code ends_with
protected_runs = refl

materialize_protected-agrees_example :
    (f : EndpointFacts) × (endpoint_document split str quote dumps f "$secret://vault/mcp"
      ≡ endpoint_made)
    × (protected_document split str dumps f.issuer f.public_api_base f.required_scope
          f.installation_id f.revision f.request_id
        ≡ protected_made)
materialize_protected-agrees_example =
    materialize_protected-agrees split str quote dumps endpoint installation "$secret://vault/mcp"
      endpoint_made protected_made endpoint_runs protected_runs
