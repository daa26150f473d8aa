-- ===== src/Materialize/Internal/Guarded.antt =====
-- What the checks of tools/materialize_apisix_internal_m2m_routes.py guarantee of a route.
use package.text.Mathlib.Text.{starts_with}
use ouf_api_gateway.Base.{
  [], ◌∷◌, string_eq, eq_iff, true, false, not, ◌&&◌, String, ◌≡◌, ap, ◌∙◌, ok, require-true,
  forbid-false, any, ok-injective,
}
use ouf_api_gateway.Document.{Value, items_of, field, or_empty, is_text, same_value, array, text}
use ouf_api_gateway.Document.Steps.{
  Ensures, Ensures-bind, Ensures-ok, Ensures-require, of-Ensures, then-ok,
}
use ouf_api_gateway.Document.Names.{is_name}
use ouf_api_gateway.Materialize.{
  require_text, is_secret_ref, is_port, is_one_of, is_wildcard, is_bounded,
}
use ouf_api_gateway.Materialize.Internal.{document_of, materialize_route}
use ouf_api_gateway.Materialize.Workload.{
  Facts, facts_of, methods_allowed, allowed_services_of, check_policy, is_unverified_remote,
}

-- An exposure, an identity and actors that the policy of an internal route may have.
pub record IsInternal (labels policy : Value) : Type 0 where
  pub exposure :
      (e : Value) × (field "exposure" (or_empty labels) ≡ ok e) × (is_text "internal" e ≡ true)
  pub identity : require_text "identity" policy ≡ ok "M2M"

-- What is read of the route for its facts, and what has been checked of it.
pub record IsGuarded (route : Value) (oidc_secret_ref : String) (f : Facts) : Type 0 where
  pub labels : Value
  pub policy : Value
  pub backend : Value
  pub labels_read : field "labels" route ≡ ok labels
  pub policy_read : field "x-ouf-policy" route ≡ ok policy
  pub backend_read : field "x-ouf-backend-binding" route ≡ ok backend
  pub admitted : IsInternal labels policy
  pub service_read : require_text "service" backend ≡ ok f.service
  pub port_read : field "port" backend ≡ ok f.port
  pub path_read : require_text "path" backend ≡ ok f.backend_path
  pub uri_read : require_text "uri" route ≡ ok f.uri
  pub methods_read : field "methods" route ≡ ok f.methods
  pub actors :
      (a : Value) × (field "allowedActorTypes" policy ≡ ok a)
      × (same_value a (array (text "SERVICE" ∷ [])) ≡ true)
  pub services : allowed_services_of policy ≡ ok f.allowed_services
  pub reviewed :
      (id : Value) × (field "id" route ≡ ok id) × (is_unverified_remote id f.service f.port ≡ false)
  pub secret : is_secret_ref oidc_secret_ref ≡ true
  pub numbered : is_port f.port ≡ true
  pub named : is_name f.service ≡ true
  pub single : is_one_of methods_allowed (items_of f.methods) ≡ ok true
  pub bounded : (is_wildcard f.uri && not (is_bounded f.uri f.backend_path)) ≡ false
  pub projected : any (λ s. starts_with s "installation://") f.allowed_services ≡ false

allowed_services_of-projected :
    (policy : Value)
    → Ensures
        (λ services. any (λ s. starts_with s "installation://") services ≡ false)
        (allowed_services_of policy)
unfolding allowed_services_of
allowed_services_of-projected policy = Ensures-bind λ allowed _.
    Ensures-bind λ services _. Ensures-bind λ projected q. Ensures-ok (forbid-false _ _ projected q)

check_policy-IsInternal :
    (labels policy : Value) → Ensures (λ _. IsInternal labels policy) (check_policy labels policy)
unfolding check_policy
check_policy-IsInternal labels policy = Ensures-bind λ exposure q_exposure.
    Ensures-bind λ internal q_internal. Ensures-bind λ governed _.
      Ensures-bind λ identity q_identity. Ensures-require _ _ λ m2m. record {
        exposure = (exposure, q_exposure, require-true _ _ internal q_internal);
        identity = q_identity ∙ ap ok ((eq_iff identity "M2M").0 m2m);
      }

facts_of-IsGuarded :
    (route installation : Value) (oidc_secret_ref : String)
    → Ensures (IsGuarded route oidc_secret_ref) (facts_of route installation oidc_secret_ref)
unfolding facts_of
facts_of-IsGuarded route installation oidc_secret_ref = Ensures-bind λ labels q_labels.
    Ensures-bind λ policy q_policy. Ensures-bind λ backend q_backend. Ensures-bind λ capability _.
      Ensures-bind λ m2m q_m2m. Ensures-bind λ bound _. Ensures-bind λ governed _.
        Ensures-bind λ services q_services. Ensures-bind λ actors q_actors.
          Ensures-bind λ workload q_workload. Ensures-bind λ scope _.
            Ensures-bind λ secret q_secret. Ensures-bind λ issuer _. Ensures-bind λ audience _.
              Ensures-bind λ service q_service. Ensures-bind λ port q_port.
                Ensures-bind λ backend_path q_path. Ensures-bind λ uri q_uri.
                  Ensures-bind λ methods q_methods. Ensures-bind λ numbered q_numbered.
                    Ensures-bind λ named q_named. Ensures-bind λ route_id q_id.
                      Ensures-bind λ verified q_verified. Ensures-bind λ single q_single.
                        Ensures-bind λ supported q_supported. Ensures-bind λ bounded q_bounded.
                          Ensures-bind λ request_id _. Ensures-bind λ limit_count _.
                            Ensures-bind λ id _. Ensures-bind λ installation_id _.
                              Ensures-bind λ revision _. Ensures-bind λ capability_id _.
                                let q = q_single ∙ ap ok (require-true _ _ supported q_supported) in
                                Ensures-ok (record {
                                  labels = labels;
                                  policy = policy;
                                  backend = backend;
                                  labels_read = q_labels;
                                  policy_read = q_policy;
                                  backend_read = q_backend;
                                  admitted =
                                      of-Ensures _ _ m2m (check_policy-IsInternal labels policy)
                                        q_m2m;
                                  service_read = q_service;
                                  port_read = q_port;
                                  path_read = q_path;
                                  uri_read = q_uri;
                                  methods_read = q_methods;
                                  actors = (actors, q_actors, require-true _ _ workload q_workload);
                                  services = q_services;
                                  reviewed = (route_id, q_id, forbid-false _ _ verified q_verified);
                                  secret = require-true _ _ secret q_secret;
                                  numbered = require-true _ _ numbered q_numbered;
                                  named = require-true _ _ named q_named;
                                  single = q;
                                  bounded = forbid-false _ _ bounded q_bounded;
                                  projected =
                                      of-Ensures _ _ services (allowed_services_of-projected policy)
                                        q_services;
                                })

module _ (str : Value → String) (lua_quote : String → String) where
  -- A route that is materialised is the document of facts whose service, port, backend path, URI,
  -- methods and allowed services are those that the compiled route names, and these pass the checks:
  -- the route is internal, for the identity M2M and the actor SERVICE; its OIDC secret is a
  -- reference; its port and its service's name are in range; a managed file goes to the reviewed
  -- upstream; it has one supported method; a wildcard's backend path is its own URI, with one star at
  -- the end; and no allowed service is an unprojected reference.
  pub materialize_route-IsGuarded :
      (route installation : Value) (oidc_secret_ref : String) (made : Value)
      → materialize_route str lua_quote route installation oidc_secret_ref ≡ ok made
      → (f : Facts) × (document_of str lua_quote f oidc_secret_ref ≡ made)
        × IsGuarded route oidc_secret_ref f
  unfolding materialize_route
  materialize_route-IsGuarded route installation oidc_secret_ref made h =
      let facts = then-ok (facts_of route installation oidc_secret_ref) _ h in
      (
        facts.0,
        ok-injective facts.2,
        of-Ensures _ _ facts.0 (facts_of-IsGuarded route installation oidc_secret_ref) facts.1,
      )
