-- ===== src/Materialize/Endpoint/Published.antt =====
-- The two routes of tools/materialize_apisix_runtime.py side by side.
use ouf_api_gateway.Base.{true, false, String, ◌≡◌, refl, sym, ◌∙◌, ok, ok-injective, Outcome, ap}
use ouf_api_gateway.Document.{Value, field, ToolError}
use ouf_api_gateway.Document.Steps.{Ensures, Ensures-bind, Ensures-ok, of-Ensures, then-ok}
use ouf_api_gateway.Materialize.{require_text}
use ouf_api_gateway.Materialize.Endpoint.{
  SplitUrl, EndpointFacts, require_https_url, endpoint_facts_of, plain_plugin,
}
use ouf_api_gateway.Materialize.Endpoint.Documents.{endpoint_document, materialize_mcp_route}
use ouf_api_gateway.Materialize.Endpoint.Metadata.{
  protected_document, materialize_protected_resource_route,
}

module _ (urlsplit : String → SplitUrl) (str : Value → String) (lua_quote : String → String)
    (dumps : Value → String) where
  -- What both routes read of the installation and of the policy.
  record Reads (route installation policy : Value) (issuer base scope installation_id : String)
      (revision request_id : Value) : Type 0 where
    policy_read : field "x-ouf-policy" route ≡ ok policy
    issuer_read : require_https_url urlsplit false "issuerUrl" installation ≡ ok issuer
    base_read : require_https_url urlsplit true "publicApiBaseUrl" installation ≡ ok base
    scope_read : require_text "requiredScope" policy ≡ ok scope
    id_read : require_text "installationId" installation ≡ ok installation_id
    revision_read : field "revision" installation ≡ ok revision
    request_id_read : plain_plugin "request-id" route ≡ ok request_id

  abbrev ReadFacts : Value → Value → EndpointFacts → Type 0
  ReadFacts route installation f =
      (policy : Value) × Reads route installation policy f.issuer f.public_api_base f.required_scope
        f.installation_id f.revision f.request_id

  endpoint_facts_of-Reads :
      (route installation : Value) (oidc_secret_ref : String)
      → Ensures
          (ReadFacts route installation)
          (endpoint_facts_of urlsplit route installation oidc_secret_ref)
  unfolding endpoint_facts_of
  endpoint_facts_of-Reads route installation oidc_secret_ref = Ensures-bind λ uri _.
      Ensures-bind λ mcp _. Ensures-bind λ methods _. Ensures-bind λ post _.
        Ensures-bind λ policy q_policy. Ensures-bind λ trusted _. Ensures-bind λ backend _.
          Ensures-bind λ governed _. Ensures-bind λ identity _. Ensures-bind λ oidc _.
            Ensures-bind λ audience _. Ensures-bind λ required_scope q_scope.
              Ensures-bind λ actors _. Ensures-bind λ allowed_actors _.
                Ensures-bind λ issuer q_issuer. Ensures-bind λ public_api_base q_base.
                  Ensures-bind λ service _. Ensures-bind λ port _. Ensures-bind λ path _.
                    Ensures-bind λ kept _. Ensures-bind λ numbered _. Ensures-bind λ named _.
                      Ensures-bind λ strip _. Ensures-bind λ listed _. Ensures-bind λ injected _.
                        Ensures-bind λ marked _. Ensures-bind λ secret _.
                          Ensures-bind λ request_id q_request_id. Ensures-bind λ limit_count _.
                            Ensures-bind λ max_bytes _. Ensures-bind λ max_body _.
                              Ensures-bind λ stripped _. Ensures-bind λ id _.
                                Ensures-bind λ installation_id q_id.
                                  Ensures-bind λ revision q_revision. Ensures-ok (
                                    policy,
                                    record {
                                      policy_read = q_policy;
                                      issuer_read = q_issuer;
                                      base_read = q_base;
                                      scope_read = q_scope;
                                      id_read = q_id;
                                      revision_read = q_revision;
                                      request_id_read = q_request_id;
                                    },
                                  )

  abbrev IsProtected : Value → Value → Value → Type 0
  IsProtected route installation made =
      (policy : Value) × (issuer : String) × (base : String) × (scope : String)
      × (installation_id : String) × (revision : Value) × (request_id : Value) × Reads route
          installation policy issuer base scope installation_id revision request_id
      × (protected_document urlsplit str dumps issuer base scope installation_id revision request_id
          ≡ made)

  IsProtected-Reads :
      (route installation : Value)
      → Ensures
          (IsProtected route installation)
          (materialize_protected_resource_route urlsplit str dumps route installation)
  unfolding materialize_protected_resource_route
  IsProtected-Reads route installation = Ensures-bind λ policy q_policy. Ensures-bind λ governed _.
      Ensures-bind λ issuer q_issuer. Ensures-bind λ base q_base. Ensures-bind λ scope q_scope.
        Ensures-bind λ installation_id q_id. Ensures-bind λ revision q_revision.
          Ensures-bind λ request_id q_request_id. Ensures-ok (
            policy,
            issuer,
            base,
            scope,
            installation_id,
            revision,
            request_id,
            record {
              policy_read = q_policy;
              issuer_read = q_issuer;
              base_read = q_base;
              scope_read = q_scope;
              id_read = q_id;
              revision_read = q_revision;
              request_id_read = q_request_id;
            },
            refl,
          )

  same_read : {A : Type 0} (r : Outcome ToolError A) (a b : A) → r ≡ ok a → r ≡ ok b → a ≡ b
  same_read r a b p q = ok-injective (sym p ∙ q)

  -- The metadata route that is materialised beside an MCP endpoint is the one of the endpoint's own
  -- facts: the same issuer, public origin, scope, installation, revision and request-id plugin.
  pub materialize_protected-agrees :
      (route installation : Value) (oidc_secret_ref : String) (made protected : Value)
      → materialize_mcp_route urlsplit str lua_quote dumps route installation oidc_secret_ref
        ≡ ok made
      → materialize_protected_resource_route urlsplit str dumps route installation ≡ ok protected
      → (f : EndpointFacts) × (endpoint_document urlsplit str lua_quote dumps f oidc_secret_ref
          ≡ made)
        × (protected_document urlsplit str dumps f.issuer f.public_api_base f.required_scope
              f.installation_id f.revision f.request_id
            ≡ protected)
  unfolding materialize_mcp_route
  materialize_protected-agrees route installation oidc_secret_ref made protected h p =
      let facts = then-ok (endpoint_facts_of urlsplit route installation oidc_secret_ref) _ h in
      let f = facts.0 in
      let (policy, r) =
        of-Ensures (ReadFacts route installation) _ f
          (endpoint_facts_of-Reads route installation oidc_secret_ref) facts.1 in
      let (policy', issuer, base, scope, installation_id, revision, request_id, r', q) =
        of-Ensures (IsProtected route installation) _ protected
          (IsProtected-Reads route installation) p in
      let same_policy = same_read _ policy policy' r.policy_read r'.policy_read in
      let same_issuer = same_read _ f.issuer issuer r.issuer_read r'.issuer_read in
      let same_base = same_read _ f.public_api_base base r.base_read r'.base_read in
      let same_scope =
        same_read _ f.required_scope scope r.scope_read
          (ap (require_text "requiredScope") same_policy ∙ r'.scope_read) in
      let same_id = same_read _ f.installation_id installation_id r.id_read r'.id_read in
      let same_revision = same_read _ f.revision revision r.revision_read r'.revision_read in
      let same_request_id =
        same_read _ f.request_id request_id r.request_id_read r'.request_id_read in
      (
        f,
        ok-injective facts.2,
        rw (same_issuer, same_base, same_scope, same_id, same_revision, same_request_id) q,
      )
