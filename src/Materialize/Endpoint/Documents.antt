-- ===== src/Materialize/Endpoint/Documents.antt =====
-- The routes of tools/materialize_apisix_runtime.py, from the facts that its checks have read.
use Prim.Native.String
use ouf_api_gateway.Base.{true, String, [], ◌∷◌, nat_eq, string_eq, Outcome, ok, require}
use ouf_api_gateway.Base.Int.{pos}
use ouf_api_gateway.Base.Text.{sort_by}
use ouf_api_gateway.Document.{
  ◌>>=◌, Value, flag, integer, text, object, array, ToolError, rejected, field, is_dict,
}
use ouf_api_gateway.Materialize.{require_text, node_name, field_or_empty, iterated}
use ouf_api_gateway.Materialize.Guards.{trusted_pre_function, trusted_post_function}
use ouf_api_gateway.Materialize.Endpoint.{
  SplitUrl, EndpointFacts, endpoint_facts_of, metadata_path, own_name, distinct,
}
use ouf_api_gateway.Materialize.Endpoint.Selection.{candidates_of, only}
use ouf_api_gateway.Materialize.Endpoint.Metadata.{materialize_protected_resource_route}

-- `str` is Python's, `lua_quote` is `json.dumps` of a text, and `dumps` of a document with sorted
-- keys and no blanks.
module _ (urlsplit : String → SplitUrl) (str : Value → String) (lua_quote : String → String)
    (dumps : Value → String) where
  unfoldable pub endpoint_oidc : EndpointFacts → String → Value
  endpoint_oidc f oidc_secret_ref = object (
      ("client_id", text f.audience)
      ∷ ("client_secret", text oidc_secret_ref)
      ∷ ("discovery", text (String.◌++◌ f.issuer "/.well-known/openid-configuration"))
      ∷ ("bearer_only", flag true)
      ∷ ("unauth_action", text "deny")
      ∷ ("use_jwks", flag true)
      ∷ ("ssl_verify", flag true)
      ∷ ("required_scopes", array (text f.required_scope ∷ []))
      ∷ (
        "claim_validator",
        object (
            (
              "audience",
              object (("required", flag true) ∷ ("match_with_client_id", flag true) ∷ []),
            )
            ∷ []),
      )
      ∷ [])

  -- The value of `WWW-Authenticate`
  unfoldable pub challenge : EndpointFacts → String
  challenge f = String.◌++◌ "Bearer resource_metadata=\"" (
      String.◌++◌ f.public_api_base (
        String.◌++◌ metadata_path (String.◌++◌ "\", scope=\"" (String.◌++◌ f.required_scope "\""))))

  unfoldable pub endpoint_plugins : EndpointFacts → String → Value
  unfolding endpoint_oidc challenge trusted_pre_function trusted_post_function sort_by distinct
  endpoint_plugins f oidc_secret_ref = object (
      ("request-id", f.request_id)
      ∷ ("limit-count", f.limit_count)
      ∷ (
        "request-validation",
        object (
            ("max_req_body_size", integer f.max_body)
            ∷ (
              "body_schema",
              object (
                  (
                    "anyOf",
                    array (
                        object (("type", text "object") ∷ [])
                        ∷ object (("type", text "array") ∷ [])
                        ∷ []),
                  )
                  ∷ []),
            )
            ∷ []),
      )
      ∷ ("proxy-rewrite", object (("uri", text "/mcp") ∷ []))
      ∷ (
        "serverless-pre-function",
        object (
            ("phase", text "rewrite")
            ∷ (
              "functions",
              array (
                  text (trusted_pre_function lua_quote (sort_by own_name (distinct f.stripped)))
                  ∷ []),
            )
            ∷ []),
      )
      ∷ ("openid-connect", endpoint_oidc f oidc_secret_ref)
      ∷ (
        "response-rewrite",
        object (
            (
              "headers",
              object (("set", object (("WWW-Authenticate", text (challenge f)) ∷ [])) ∷ []),
            )
            ∷ ("vars", array (array (text "status" ∷ text "==" ∷ integer (pos 401) ∷ []) ∷ []))
            ∷ []),
      )
      ∷ (
        "serverless-post-function",
        object (
            ("phase", text "access")
            ∷ ("functions", array (text (trusted_post_function lua_quote f.allowed_actors) ∷ []))
            ∷ []),
      )
      ∷ [])

  unfoldable pub endpoint_document : EndpointFacts → String → Value
  unfolding endpoint_plugins
  endpoint_document f oidc_secret_ref = object (
      ("id", text f.id)
      ∷ ("uri", text "/mcp")
      ∷ ("methods", array (text "POST" ∷ []))
      ∷ (
        "labels",
        object (
            ("ouf-managed", text "true")
            ∷ ("ouf-installation", text f.installation_id)
            ∷ ("ouf-installation-revision", text (str f.revision))
            ∷ ("ouf-protocol", text "MCP")
            ∷ []),
      )
      ∷ ("plugins", endpoint_plugins f oidc_secret_ref)
      ∷ (
        "upstream",
        object (
            ("type", text "roundrobin")
            ∷ ("scheme", text "http")
            ∷ ("nodes", object ((node_name str f.service f.port, integer (pos 1)) ∷ []))
            ∷ []),
      )
      ∷ [])

  -- `materialize_mcp_route(route, installation, oidc_secret_ref)`
  unfoldable pub materialize_mcp_route : Value → Value → String → Outcome ToolError Value
  unfolding endpoint_facts_of endpoint_document
  materialize_mcp_route route installation oidc_secret_ref = do
    f ← endpoint_facts_of urlsplit route installation oidc_secret_ref
    ok (endpoint_document f oidc_secret_ref)

  -- `materialize(runtime, oidc_secret_ref)`
  unfoldable pub materialize_endpoint : Value → String → Outcome ToolError Value
  unfolding materialize_mcp_route materialize_protected_resource_route candidates_of
  materialize_endpoint runtime oidc_secret_ref = do
    installation ← field "x-ouf-installation" runtime
    resolved ←
        require (is_dict installation) (rejected "resolved installation metadata is required")
    listed ← field_or_empty "routes" runtime
    routes ← iterated listed
    candidates ← candidates_of routes
    candidate ← only candidates
    route ← materialize_mcp_route candidate installation oidc_secret_ref
    protected ← materialize_protected_resource_route urlsplit str dumps candidate installation
    installation_id ← require_text "installationId" installation
    revision ← field "revision" installation
    checksum ← require_text "checksum" installation
    ok (
        object (
          ("formatVersion", text "1.0")
          ∷ ("installationId", text installation_id)
          ∷ ("installationRevision", revision)
          ∷ ("installationChecksum", text checksum)
          ∷ ("routes", array (protected ∷ route ∷ []))
          ∷ []))
