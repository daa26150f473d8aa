-- ===== src/Materialize/Onboarding.antt =====
-- tools/materialize_trusted_human_onboarding_runtime.py: the routes of the onboarding surface for people.
pub mod Bounded
use Prim.Native.String
use package.text.Mathlib.Text.{starts_with}
use ouf_api_gateway.Base.{
  ℕ, Bool, true, false, not, ◌&&◌, ◌||◌, Option, none, some, String, List, [], ◌∷◌, ◌==◌, ◌≠◌,
  nat_eq, string_eq, Outcome, ok, raised, if◌then◌else◌, forbid, require, ◌++◌, leb, min, all,
}
use ouf_api_gateway.Base.Int.{ℤ, pos, negsuc}
use ouf_api_gateway.Document.{
  ◌>>=◌, Value, null, flag, integer, text, items, fields, Fields, object, array, ToolError,
  rejected, type_error, field, text_of, items_of, is_dict, or_empty, is_text, same_value, find,
  or_null,
}
use ouf_api_gateway.Document.Names.{is_name, drop_slashes}
use ouf_api_gateway.Document.Numbers.{to_int}
use ouf_api_gateway.Materialize.{
  require_text, is_secret_ref, is_port, is_one_of, is_wildcard, is_bounded, node_name,
  field_or_object, plugin, field_or_empty, iterated, select_routes,
}
use ouf_api_gateway.Materialize.Guards.{trusted_headers, trusted_pre_function, human_guard}
use ouf_api_gateway.Materialize.Human.{HumanFacts, human_facts_of}

-- `ROUTE_IDS`
abbrev pub route_ids : List String
route_ids =
    "trusted-human-onboarding-sources-get" ∷ "trusted-human-onboarding-sources-post"
    ∷ "trusted-human-onboarding-lifecycle-get" ∷ "trusted-human-onboarding-lifecycle-post"
    ∷ "trusted-human-onboarding-lifecycle-put" ∷ "trusted-human-onboarding-approvals-get"
    ∷ "trusted-human-onboarding-approvals-post" ∷ "trusted-human-managed-file-upload"
    ∷ "trusted-human-managed-file-actions-post" ∷ "trusted-human-managed-file-preview-get"
    ∷ "trusted-human-ingestion-onboarding-readiness" ∷ []

abbrev pub is_hashable : Value → Bool
is_hashable null = true
is_hashable (flag b) = true
is_hashable (integer n) = true
is_hashable (text s) = true
is_hashable (items xs) = false
is_hashable (fields fs) = false

abbrev pub has_hashable_id : Value → Bool
has_hashable_id (fields fs) = is_hashable (or_null (find "id" fs))
has_hashable_id null = true
has_hashable_id (flag b) = true
has_hashable_id (integer n) = true
has_hashable_id (text s) = true
has_hashable_id (items xs) = true

-- Building `indexed` fails on an id that is no key.
abbrev pub check_keys : List Value → Outcome ToolError (Unit {0})
check_keys candidates = require (all has_hashable_id candidates) type_error

-- `str` is Python's, and `lua_quote` is `json.dumps` of a text.
module _ (str : Value → String) (lua_quote : String → String) where
  unfoldable pub human_oidc : HumanFacts → String → Value
  human_oidc f oidc_secret_ref = object (
      ("client_id", text f.audience)
      ∷ ("client_secret", text oidc_secret_ref)
      ∷ ("discovery", text (String.◌++◌ f.issuer "/.well-known/openid-configuration"))
      ∷ ("bearer_only", flag true)
      ∷ ("unauth_action", text "deny")
      ∷ ("use_jwks", flag true)
      ∷ ("ssl_verify", flag true)
      ∷ ("required_scopes", array (text f.scope ∷ []))
      ∷ (
        "claim_validator",
        object (
            (
              "audience",
              object (("required", flag true) ∷ ("match_with_client_id", flag true) ∷ []),
            )
            ∷ []),
      )
      ∷ ("set_access_token_header", flag false)
      ∷ ("set_id_token_header", flag false)
      ∷ ("set_userinfo_header", flag false)
      ∷ [])

  abbrev pub streaming : HumanFacts → Bool → List (String × Value)
  streaming f streaming_runtime =
      if f.is_upload && streaming_runtime
      then (("proxy-control", object (("request_buffering", flag false) ∷ [])) ∷ [])
      else []

  abbrev pub human_rewrite : HumanFacts → List (String × Value)
  human_rewrite f =
      if is_wildcard f.uri
      then []
      else (("proxy-rewrite", object (("uri", text f.backend_path) ∷ [])) ∷ [])

  unfoldable pub human_plugins : HumanFacts → String → Bool → Value
  unfolding human_oidc trusted_pre_function human_guard
  human_plugins f oidc_secret_ref streaming_runtime = object (
      (("request-id", f.request_id)
        ∷ ("limit-count", f.limit_count)
        ∷ ("client-control", object (("max_body_size", integer f.max_body) ∷ []))
        ∷ (
          "serverless-pre-function",
          object (
              ("phase", text "rewrite")
              ∷ ("functions", array (text (trusted_pre_function lua_quote trusted_headers) ∷ []))
              ∷ []),
        )
        ∷ ("openid-connect", human_oidc f oidc_secret_ref)
        ∷ (
          "serverless-post-function",
          object (("phase", text "access") ∷ ("functions", array (text human_guard ∷ [])) ∷ []),
        )
        ∷ [])
      ++ (streaming f streaming_runtime ++ human_rewrite f))

  unfoldable pub human_document : HumanFacts → String → Bool → Value
  unfolding human_plugins
  human_document f oidc_secret_ref streaming_runtime = object (
      ("id", text f.id)
      ∷ ("uri", text f.uri)
      ∷ ("methods", f.methods)
      ∷ (
        "labels",
        object (
            ("ouf-managed", text "true")
            ∷ ("ouf-installation", text f.installation_id)
            ∷ ("ouf-installation-revision", text (str f.revision))
            ∷ ("ouf-capability", text f.capability_id)
            ∷ ("ouf-surface", text "TRUSTED_HUMAN_ONBOARDING")
            ∷ []),
      )
      ∷ ("plugins", human_plugins f oidc_secret_ref streaming_runtime)
      ∷ (
        "upstream",
        object (
            ("type", text "roundrobin")
            ∷ ("scheme", text "http")
            ∷ ("nodes", object ((node_name str f.service f.port, integer (pos 1)) ∷ []))
            ∷ ("retries", integer (pos 0))
            ∷ (
              "timeout",
              object (
                  ("connect", integer (pos (min 10 f.timeout)))
                  ∷ ("send", integer (pos (min 10 f.timeout)))
                  ∷ ("read", integer (pos f.timeout))
                  ∷ []),
            )
            ∷ []),
      )
      ∷ [])

  -- `materialize_route(route, installation, oidc_secret_ref, streaming_runtime)`
  unfoldable pub materialize_human_route : Value → Value → String → Bool → Outcome ToolError Value
  unfolding human_facts_of human_document
  materialize_human_route route installation oidc_secret_ref streaming_runtime = do
    f ← human_facts_of route installation oidc_secret_ref
    ok (human_document f oidc_secret_ref streaming_runtime)

  unfoldable pub materialize_human_each :
      Value → List Value → String → Bool → Outcome ToolError (List Value)
  unfolding materialize_human_route
  materialize_human_each installation [] oidc_secret_ref streaming_runtime = ok []
  materialize_human_each installation (route ∷ routes) oidc_secret_ref streaming_runtime = do
    made ← materialize_human_route route installation oidc_secret_ref streaming_runtime
    rest ← materialize_human_each installation routes oidc_secret_ref streaming_runtime
    ok (made ∷ rest)

  -- `materialize(runtime, oidc_secret_ref, streaming_runtime)`
  unfoldable pub materialize_surface : Value → String → Bool → Outcome ToolError Value
  unfolding materialize_human_each select_routes
  materialize_surface runtime oidc_secret_ref streaming_runtime = do
    installation ← field "x-ouf-installation" runtime
    resolved ←
        require (is_dict installation) (rejected "resolved installation metadata is required")
    listed ← field_or_empty "routes" runtime
    candidates ← iterated listed
    keyed ← check_keys candidates
    selected ← select_routes route_ids candidates
    routes ← materialize_human_each installation selected oidc_secret_ref streaming_runtime
    installation_id ← require_text "installationId" installation
    revision ← field "revision" installation
    checksum ← require_text "checksum" installation
    ok (
        object (
          ("formatVersion", text "1.0")
          ∷ ("installationId", text installation_id)
          ∷ ("installationRevision", revision)
          ∷ ("installationChecksum", text checksum)
          ∷ ("routes", array routes)
          ∷ []))
