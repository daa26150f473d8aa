-- ===== src/Materialize/Internal/Accepted.antt =====
-- The routes of tools/materialize_apisix_internal_m2m_routes.py before the validation of
-- ops/apisix/deploy_internal_m2m_routes.py.
use mathlib.Core.Path.{subst}
use package.text.Mathlib.Text.{starts_with}
use ouf_api_gateway.Base.{
  true, String, List, [], ◌∷◌, ◌≡◌, refl, ap, ◌∙◌, sym, ok, arith, ok-injective, Option, none, some,
}
use ouf_api_gateway.Document.{find, Value, text, array, items_of}
use ouf_api_gateway.Document.Names.{is_name}
use ouf_api_gateway.Materialize.{is_one_of}
use ouf_api_gateway.Materialize.Internal.{document_of, plugins_of, materialize_route}
use ouf_api_gateway.Materialize.Workload.{Facts, methods_allowed}
use ouf_api_gateway.Materialize.Internal.Guarded.{materialize_route-IsGuarded}
use ouf_api_gateway.Deploy.Routes.{
  validate_routes, validate_each, validate_route, check_governed, check_plugins, is_single, text_at,
}

single_of :
    (names : List String) (o : Option (List Value))
    → is_one_of names o ≡ ok true
    → is_single o ≡ true
single_of names none h = absurd (ground arith)
single_of names (some []) h = absurd (ground arith)
single_of names (some (m ∷ [])) h = refl
single_of names (some (m ∷ n ∷ ms)) h = absurd (ground arith)

validated_alone :
    (made : Value) (id : String)
    → validate_route [] made ≡ ok id
    → validate_routes (array (made ∷ [])) ≡ ok (id ∷ [])
unfolding validate_routes validate_each
validated_alone made id h = rw h refl

module _ (str : Value → String) (lua_quote : String → String) where
  document_of-governed :
      (f : Facts) (oidc_secret_ref : String)
      → starts_with f.uri "/" ≡ true
      → is_single (items_of f.methods) ≡ true
      → check_governed (document_of str lua_quote f oidc_secret_ref) ≡ ok tt
  unfolding document_of plugins_of check_governed check_plugins find
  document_of-governed f oidc_secret_ref rooted single = rw (rooted, single) refl

  document_of-valid :
      (f : Facts) (oidc_secret_ref : String)
      → is_name f.id ≡ true
      → starts_with f.uri "/" ≡ true
      → is_single (items_of f.methods) ≡ true
      → validate_route [] (document_of str lua_quote f oidc_secret_ref) ≡ ok f.id
  unfolding document_of validate_route find
  document_of-valid f oidc_secret_ref named rooted single =
      rw (named, document_of-governed f oidc_secret_ref rooted single) refl

  document_of-texts :
      (f : Facts) (oidc_secret_ref : String)
      → (text_at "id" (document_of str lua_quote f oidc_secret_ref) ≡ ok f.id)
        × (text_at "uri" (document_of str lua_quote f oidc_secret_ref) ≡ ok f.uri)
  unfolding document_of find
  document_of-texts f oidc_secret_ref = (refl, refl)

  -- A materialised route whose id is a plain name and whose path starts at the root passes the
  -- validation of the deployment as it stands, alone in its list, and is known there by its id.
  pub materialize_route-accepted :
      (route installation : Value) (oidc_secret_ref : String) (made : Value) (id uri : String)
      → materialize_route str lua_quote route installation oidc_secret_ref ≡ ok made
      → text_at "id" made ≡ ok id
      → is_name id ≡ true
      → text_at "uri" made ≡ ok uri
      → starts_with uri "/" ≡ true
      → validate_routes (array (made ∷ [])) ≡ ok (id ∷ [])
  materialize_route-accepted route installation oidc_secret_ref made id uri h named good at rooted =
      let (f, q, guarded) =
        materialize_route-IsGuarded str lua_quote route installation oidc_secret_ref made h in
      let own = document_of-texts f oidc_secret_ref in
      let same : f.id ≡ id = ok-injective (sym own.0 ∙ ap (text_at "id") q ∙ named) in
      let path : f.uri ≡ uri = ok-injective (sym own.1 ∙ ap (text_at "uri") q ∙ at) in
      validated_alone made id (
        subst (λ m. validate_route [] m ≡ ok id) q
          (document_of-valid f oidc_secret_ref (subst (λ k. is_name k ≡ true) (sym same) good)
              (subst (λ k. starts_with k "/" ≡ true) (sym path) rooted)
              (single_of methods_allowed (items_of f.methods) guarded.single)
            ∙ ap ok same))
