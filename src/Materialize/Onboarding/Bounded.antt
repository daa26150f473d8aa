-- ===== src/Materialize/Onboarding/Bounded.antt =====
-- What the checks of tools/materialize_trusted_human_onboarding_runtime.py guarantee of a route.
use ouf_api_gateway.Base.{
  [], ◌∷◌, string_eq, ◌≠◌, ◌||◌, eq_iff, ℕ, Bool, true, false, not, ◌&&◌, String, ◌≡◌, ap, ◌∙◌, ok,
  ok-injective, require-true, forbid-false, arith, ◌≤◌, leb, Bool-cases, inl, inr,
}
use ouf_api_gateway.Base.Int.{pos, negsuc}
use ouf_api_gateway.Document.{
  Value, field, or_empty, is_text, same_value, array, text_of, items_of, null, flag, integer, text,
  items, fields,
}
use ouf_api_gateway.Document.Steps.{
  Ensures, Ensures-bind, Ensures-ok, Ensures-require, of-Ensures, then-ok,
}
use ouf_api_gateway.Document.Names.{is_name}
use ouf_api_gateway.Materialize.{
  require_text, is_secret_ref, is_port, is_one_of, is_wildcard, is_bounded,
}
use ouf_api_gateway.Materialize.Onboarding.{human_document, materialize_human_route}
use ouf_api_gateway.Materialize.Human.{
  HumanFacts, human_facts_of, human_methods, timeout_of, check_surface, field_or, is_managed_file,
}

-- An exposure, an identity and actors that the policy of a route for people may have.
pub record IsForPeople (labels policy : Value) : Type 0 where
  pub exposure :
      (e : Value) × (field "exposure" (or_empty labels) ≡ ok e) × (is_text "public" e ≡ true)
  pub identity : require_text "identity" policy ≡ ok "OIDC"
  pub actors :
      (a : Value) × (field "allowedActorTypes" policy ≡ ok a)
      × (same_value a (array (text "HUMAN" ∷ [])) ≡ true)

-- A managed file goes to the reviewed upstream only.
abbrev pub IsReviewed : Value → HumanFacts → Type 0
IsReviewed route f =
    (id : Value) × (managed : Bool) × (field_or (text " ") "id" route ≡ ok id)
    × (is_managed_file (text_of id) ≡ ok managed)
    × ((managed && ((f.service ≠ "ouf-onboarding") || not (same_value f.port (integer (pos 8080)))))
        ≡ false)

-- What is read of the route for its facts, and what has been checked of it.
pub record IsBounded (route : Value) (oidc_secret_ref : String) (f : HumanFacts) : Type 0 where
  pub labels : Value
  pub policy : Value
  pub backend : Value
  pub labels_read : field "labels" route ≡ ok labels
  pub policy_read : field "x-ouf-policy" route ≡ ok policy
  pub backend_read : field "x-ouf-backend-binding" route ≡ ok backend
  pub admitted : IsForPeople labels policy
  pub service_read : require_text "service" backend ≡ ok f.service
  pub port_read : field "port" backend ≡ ok f.port
  pub path_read : require_text "path" backend ≡ ok f.backend_path
  pub uri_read : require_text "uri" route ≡ ok f.uri
  pub methods_read : field "methods" route ≡ ok f.methods
  pub reviewed : IsReviewed route f
  pub secret : is_secret_ref oidc_secret_ref ≡ true
  pub valid : (is_port f.port && is_name f.service) ≡ true
  pub single : is_one_of human_methods (items_of f.methods) ≡ ok true
  pub bounded : (is_wildcard f.uri && not (is_bounded f.uri f.backend_path)) ≡ false
  pub at_least : 1 ≤ f.timeout
  pub at_most : f.timeout ≤ 60

timeout_of-bounds : (v : Value) (n : ℕ) → timeout_of v ≡ ok n → (1 ≤ n) × (n ≤ 60)
timeout_of-bounds (integer (pos m)) n h = elim (Bool-cases (leb 1 m && leb m 60)) [
  | inl inside ↦ let q : m ≡ n = ok-injective (let h' = rw inside at h in h') in ground arith
  | inr outside ↦ absurd (let h' = rw outside at h in ground arith)
]
timeout_of-bounds (integer (negsuc m)) n h = absurd (ground arith)
timeout_of-bounds null n h = absurd (ground arith)
timeout_of-bounds (flag b) n h = absurd (ground arith)
timeout_of-bounds (text s) n h = absurd (ground arith)
timeout_of-bounds (items xs) n h = absurd (ground arith)
timeout_of-bounds (fields fs) n h = absurd (ground arith)

check_surface-IsForPeople :
    (labels policy : Value) → Ensures (λ _. IsForPeople labels policy) (check_surface labels policy)
unfolding check_surface
check_surface-IsForPeople labels policy = Ensures-bind λ exposure q_exposure.
    Ensures-bind λ public q_public. Ensures-bind λ governed _. Ensures-bind λ identity q_identity.
      Ensures-bind λ oidc q_oidc. Ensures-bind λ actors q_actors. Ensures-require _ _ λ people.
        record {
          exposure = (exposure, q_exposure, require-true _ _ public q_public);
          identity = q_identity ∙ ap ok ((eq_iff identity "OIDC").0 (require-true _ _ oidc q_oidc));
          actors = (actors, q_actors, people);
        }

human_facts_of-IsBounded :
    (route installation : Value) (oidc_secret_ref : String)
    → Ensures (IsBounded route oidc_secret_ref) (human_facts_of route installation oidc_secret_ref)
unfolding human_facts_of
human_facts_of-IsBounded route installation oidc_secret_ref = Ensures-bind λ labels q_labels.
    Ensures-bind λ policy q_policy. Ensures-bind λ backend q_backend. Ensures-bind λ capability _.
      Ensures-bind λ surface q_surface. Ensures-bind λ compiled _. Ensures-bind λ secret q_secret.
        Ensures-bind λ issuer _. Ensures-bind λ audience _. Ensures-bind λ scope _.
          Ensures-bind λ service q_service. Ensures-bind λ port q_port. Ensures-bind λ uri q_uri.
            Ensures-bind λ backend_path q_path. Ensures-bind λ methods q_methods.
              Ensures-bind λ seconds _. Ensures-bind λ timeout q_timeout.
                Ensures-bind λ valid q_valid. Ensures-bind λ route_id q_id.
                  Ensures-bind λ managed q_managed. Ensures-bind λ verified q_verified.
                    Ensures-bind λ single q_single. Ensures-bind λ supported q_supported.
                      Ensures-bind λ bounded q_bounded. Ensures-bind λ request_id _.
                        Ensures-bind λ limit_count _. Ensures-bind λ max_bytes _.
                          Ensures-bind λ max_body _. Ensures-bind λ id _.
                            Ensures-bind λ installation_id _. Ensures-bind λ revision _.
                              Ensures-bind λ capability_id _.
                                let q = q_single ∙ ap ok (require-true _ _ supported q_supported) in
                                let seconds_bounds = timeout_of-bounds seconds timeout q_timeout in
                                Ensures-ok (record {
                                  labels = labels;
                                  policy = policy;
                                  backend = backend;
                                  labels_read = q_labels;
                                  policy_read = q_policy;
                                  backend_read = q_backend;
                                  admitted =
                                      of-Ensures _ _ surface
                                        (check_surface-IsForPeople labels policy) q_surface;
                                  service_read = q_service;
                                  port_read = q_port;
                                  path_read = q_path;
                                  uri_read = q_uri;
                                  methods_read = q_methods;
                                  reviewed = (
                                    route_id,
                                    managed,
                                    q_id,
                                    q_managed,
                                    forbid-false _ _ verified q_verified,
                                  );
                                  secret = require-true _ _ secret q_secret;
                                  valid = require-true _ _ valid q_valid;
                                  single = q;
                                  bounded = forbid-false _ _ bounded q_bounded;
                                  at_least = seconds_bounds.0;
                                  at_most = seconds_bounds.1;
                                })

module _ (str : Value → String) (lua_quote : String → String) where
  -- A route for people that is materialised is the document of facts whose service, port, backend
  -- path, URI and methods are those that the compiled route names, and these pass the checks: the
  -- route is public, for the identity OIDC and the actor HUMAN; its OIDC secret is a reference; its
  -- backend is a valid name and port; a managed file goes to the reviewed upstream; it has one
  -- supported method; a wildcard's backend path is its own URI, with one star at the end; and its
  -- timeout lies between 1 and 60 seconds.
  pub materialize_human_route-IsBounded :
      (route installation : Value) (oidc_secret_ref : String) (streaming_runtime : Bool)
      (made : Value)
      → materialize_human_route str lua_quote route installation oidc_secret_ref streaming_runtime
        ≡ ok made
      → (f : HumanFacts) × (human_document str lua_quote f oidc_secret_ref streaming_runtime ≡ made)
        × IsBounded route oidc_secret_ref f
  unfolding materialize_human_route
  materialize_human_route-IsBounded route installation oidc_secret_ref streaming_runtime made h =
      let facts = then-ok (human_facts_of route installation oidc_secret_ref) _ h in
      (
        facts.0,
        ok-injective facts.2,
        of-Ensures _ _ facts.0 (human_facts_of-IsBounded route installation oidc_secret_ref)
            facts.1,
      )
