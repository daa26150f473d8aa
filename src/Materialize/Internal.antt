-- ===== src/Materialize/Internal.antt =====
-- tools/materialize_apisix_internal_m2m_routes.py: an internal workload route, and a selection of them.
pub mod Guarded
pub mod Accepted
use Prim.Native.String
use package.text.Mathlib.Text.{starts_with}
use ouf_api_gateway.Base.{
  ℕ, Bool, true, false, not, ◌&&◌, ◌||◌, Option, none, some, String, List, [], ◌∷◌, ◌==◌, ◌≠◌,
  nat_eq, string_eq, Outcome, ok, raised, if◌then◌else◌, any, all, contains, forbid, require, ◌++◌,
  is_empty,
}
use ouf_api_gateway.Base.Int.{pos}
use ouf_api_gateway.Document.{
  ◌>>=◌, Value, null, flag, integer, text, items, fields, Fields, object, array, ToolError,
  rejected, type_error, field, text_of, items_of, is_dict, or_empty, is_text, same_value, entry,
  fields_of, find, or_null, list_of,
}
use ouf_api_gateway.Document.Names.{is_name, drop_slashes}
use ouf_api_gateway.Materialize.{
  field_or_object, plugin, field_or_empty, iterated, select_routes, require_text, is_secret_ref,
  is_port, is_one_of, texts_of, given, is_wildcard, is_bounded, node_name,
}
use ouf_api_gateway.Materialize.Guards.{trusted_headers, trusted_pre_function, workload_guard}
use ouf_api_gateway.Materialize.Workload.{Facts, facts_of}

-- `list(dict.fromkeys(route_ids))`
unfoldable pub unique : List String → List String → List String
unique seen [] = []
unique seen (id ∷ ids) = if contains seen id then unique seen ids else id ∷ unique (id ∷ seen) ids

-- `str` is Python's, and `lua_quote` is `json.dumps` of a text.
module _ (str : Value → String) (lua_quote : String → String) where
  unfoldable pub openid_connect : Facts → String → Value
  openid_connect f oidc_secret_ref = object (
      ("client_id", text f.audience)
      ∷ ("client_secret", text oidc_secret_ref)
      ∷ ("discovery", text (String.◌++◌ f.issuer "/.well-known/openid-configuration"))
      ∷ ("bearer_only", flag true)
      ∷ ("unauth_action", text "deny")
      ∷ ("use_jwks", flag true)
      ∷ ("ssl_verify", flag true)
      ∷ ("required_scopes", array (text f.scope ∷ []))
      ∷ (
        "claim_validator",
        object (
            (
              "audience",
              object (("required", flag true) ∷ ("match_with_client_id", flag true) ∷ []),
            )
            ∷ []),
      )
      ∷ [])

  abbrev rewrite : Facts → List (String × Value)
  rewrite f =
      if is_wildcard f.uri
      then []
      else (("proxy-rewrite", object (("uri", text f.backend_path) ∷ [])) ∷ [])

  unfoldable pub plugins_of : Facts → String → Value
  unfolding openid_connect trusted_pre_function workload_guard
  plugins_of f oidc_secret_ref = object (
      (("request-id", f.request_id)
        ∷ ("limit-count", f.limit_count)
        ∷ (
          "serverless-pre-function",
          object (
              ("phase", text "rewrite")
              ∷ ("functions", array (text (trusted_pre_function lua_quote trusted_headers) ∷ []))
              ∷ []),
        )
        ∷ ("openid-connect", openid_connect f oidc_secret_ref)
        ∷ (
          "serverless-post-function",
          object (
              ("phase", text "access")
              ∷ (
                "functions",
                array (text (workload_guard lua_quote f.allowed_services ("SERVICE" ∷ [])) ∷ []),
              )
              ∷ []),
        )
        ∷ [])
      ++ rewrite f)

  unfoldable pub document_of : Facts → String → Value
  unfolding plugins_of
  document_of f oidc_secret_ref = object (
      ("id", text f.id)
      ∷ ("uri", text f.uri)
      ∷ ("methods", f.methods)
      ∷ (
        "labels",
        object (
            ("ouf-managed", text "true")
            ∷ ("ouf-installation", text f.installation_id)
            ∷ ("ouf-installation-revision", text (str f.revision))
            ∷ ("ouf-capability", text f.capability_id)
            ∷ ("ouf-exposure", text "internal")
            ∷ []),
      )
      ∷ ("plugins", plugins_of f oidc_secret_ref)
      ∷ (
        "upstream",
        object (
            ("type", text "roundrobin")
            ∷ ("scheme", text "http")
            ∷ ("nodes", object ((node_name str f.service f.port, integer (pos 1)) ∷ []))
            ∷ []),
      )
      ∷ [])

  -- `materialize_route(route, installation, oidc_secret_ref)`
  unfoldable pub materialize_route : Value → Value → String → Outcome ToolError Value
  unfolding facts_of document_of
  materialize_route route installation oidc_secret_ref =
      facts_of route installation oidc_secret_ref >>= λ f. ok (document_of f oidc_secret_ref)

  unfoldable pub materialize_each : Value → List Value → String → Outcome ToolError (List Value)
  unfolding materialize_route
  materialize_each installation [] oidc_secret_ref = ok []
  materialize_each installation (route ∷ routes) oidc_secret_ref = do
    made ← materialize_route route installation oidc_secret_ref
    rest ← materialize_each installation routes oidc_secret_ref
    ok (made ∷ rest)

  -- `materialize(runtime, route_ids, oidc_secret_ref)`
  unfoldable pub materialize : Value → List String → String → Outcome ToolError Value
  unfolding materialize_each select_routes
  materialize runtime route_ids oidc_secret_ref = do
    installation ← field "x-ouf-installation" runtime
    resolved ←
        require (is_dict installation) (rejected "resolved installation metadata is required")
    wanted ← require (not (is_empty route_ids)) (rejected "at least one route id is required")
    listed ← field_or_empty "routes" runtime
    candidates ← iterated listed
    selected ← select_routes (unique [] route_ids) candidates
    routes ← materialize_each installation selected oidc_secret_ref
    installation_id ← require_text "installationId" installation
    revision ← field "revision" installation
    checksum ← require_text "checksum" installation
    ok (
        object (
          ("formatVersion", text "1.0")
          ∷ ("installationId", text installation_id)
          ∷ ("installationRevision", revision)
          ∷ ("installationChecksum", text checksum)
          ∷ ("routes", array routes)
          ∷ []))
