-- ===== src/Materialize/Endpoint/Metadata.antt =====
-- The route of the protected resource's metadata: tools/materialize_apisix_runtime.py.
use Prim.Native.String
use ouf_api_gateway.Base.{true, false, String, [], ◌∷◌, nat_eq, string_eq, Outcome, ok, require}
use ouf_api_gateway.Base.Int.{pos}
use ouf_api_gateway.Document.{
  ◌>>=◌, Value, flag, integer, text, object, array, ToolError, rejected, field, is_dict,
}
use ouf_api_gateway.Materialize.{require_text}
use ouf_api_gateway.Materialize.Endpoint.{SplitUrl, require_https_url, metadata_path, plain_plugin}

-- `str` is Python's, and `dumps` is `json.dumps` of a document with sorted keys and no blanks.
module _ (urlsplit : String → SplitUrl) (str : Value → String) (dumps : Value → String) where
  unfoldable pub metadata : String → String → String → Value
  metadata issuer public_api_base required_scope = object (
      ("authorization_servers", array (text issuer ∷ []))
      ∷ ("bearer_methods_supported", array (text "header" ∷ []))
      ∷ ("resource", text (String.◌++◌ public_api_base "/mcp"))
      ∷ ("resource_name", text "OUF MCP Server")
      ∷ ("scopes_supported", array (text required_scope ∷ []))
      ∷ [])

  unfoldable pub protected_document : String → String → String → String → Value → Value → Value
  unfolding metadata
  protected_document issuer public_api_base required_scope installation_id revision request_id =
      object (
        ("id", text "public-mcp-oauth-protected-resource")
        ∷ ("uri", text metadata_path)
        ∷ ("methods", array (text "GET" ∷ []))
        ∷ (
          "labels",
          object (
              ("ouf-managed", text "true")
              ∷ ("ouf-installation", text installation_id)
              ∷ ("ouf-installation-revision", text (str revision))
              ∷ ("ouf-protocol", text "OAUTH_PROTECTED_RESOURCE_METADATA")
              ∷ []),
        )
        ∷ (
          "plugins",
          object (
              ("request-id", request_id)
              ∷ (
                "limit-count",
                object (
                    ("count", integer (pos 120))
                    ∷ ("time_window", integer (pos 60))
                    ∷ ("rejected_code", integer (pos 429))
                    ∷ []),
              )
              ∷ (
                "mocking",
                object (
                    ("content_type", text "application/json")
                    ∷ (
                      "response_example",
                      text (dumps (metadata issuer public_api_base required_scope)),
                    )
                    ∷ (
                      "response_headers",
                      object (
                          ("Cache-Control", text "public, max-age=300")
                          ∷ ("X-Content-Type-Options", text "nosniff")
                          ∷ []),
                    )
                    ∷ ("response_status", integer (pos 200))
                    ∷ ("with_mock_header", flag false)
                    ∷ []),
              )
              ∷ []),
        )
        ∷ [])

  -- `materialize_protected_resource_route(route, installation)`
  unfoldable pub materialize_protected_resource_route : Value → Value → Outcome ToolError Value
  unfolding require_https_url protected_document
  materialize_protected_resource_route route installation = do
    policy ← field "x-ouf-policy" route
    governed ← require (is_dict policy) (rejected "missing governed MCP route policy")
    issuer ← require_https_url urlsplit false "issuerUrl" installation
    public_api_base ← require_https_url urlsplit true "publicApiBaseUrl" installation
    required_scope ← require_text "requiredScope" policy
    installation_id ← require_text "installationId" installation
    revision ← field "revision" installation
    request_id ← plain_plugin "request-id" route
    ok (
        protected_document issuer public_api_base required_scope installation_id revision
          request_id)
