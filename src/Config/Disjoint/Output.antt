-- ===== src/Config/Disjoint/Output.antt =====
-- What the loops of `compile_config` keep, document by document.
use ouf_api_gateway.Base.{
  string_eq, Option-cases, ◌≡◌, ◌≢◌, ap, refl, ◌∙◌, inl, inr, false, none, some, List, [], ◌∷◌, ok,
  All, arith, eq_iff, ◌==◌, Outcome-cases, ok-injective, Bool-cases,
}
use ouf_api_gateway.Config.Documents.{
  Document, Capability, SourceRuntimeProfile, RouteBinding, McpEndpointBinding, McpMediationBinding,
  capability, source, extraction, route, mcp_endpoint, mcp_mediation, find_capability, find_source,
}
use ouf_api_gateway.Config.Compile.{
  check_extractions, check_index, CompiledRoute, Build, is_taken, claim, compiled_route,
}
use ouf_api_gateway.Config.Routes.{
  resolve, add_route, add_endpoint, add_mediation, add_routes, add_endpoints, add_mediations,
  compile_config, empty_build, compiled_endpoint, compiled_mediation,
}
use ouf_api_gateway.Config.Disjoint.{
  sort_by, AllDisjoint, IsDisjointBuild, claim-IsDisjointBuild, AllDisjoint-sort_by,
}

-- What a route must be for the build to keep it apart: the schema asks for a regex that starts
-- with `^/`, so a regex is never the empty text.
abbrev pub HasNoEmptyRegex : Document → Type 0
HasNoEmptyRegex (route r) = r.uri_regex ≢ some ""
HasNoEmptyRegex _ = Unit

regex-compiled_route :
    (r : RouteBinding) (c : Capability) (s : SourceRuntimeProfile)
    → r.uri_regex ≢ some ""
    → (compiled_route r c s).uri_regex ≡ r.uri_regex
unfolding compiled_route
regex-compiled_route r c s h = elim (Option-cases r.uri_regex) [
  | inl q ↦ rw q refl
  | inr (x, q) ↦ elim (Bool-cases (x == "")) [
    | inl e ↦ absurd (h (q ∙ ap some (ground (arith, eq_iff x ""))))
    | inr e ↦ rw (q, e) refl
  ]
]

-- The only build that `add_route` returns is the one that claims a free match.
add_route-claim :
    (docs : List Document) (r : RouteBinding) (b b' : Build)
    → add_route docs r b ≡ ok b'
    → (c : Capability) × (s : SourceRuntimeProfile) × (is_taken r.method r.path r.uri_regex b
        ≡ false)
      × (b' ≡ claim r.method r.path r.uri_regex (compiled_route r c s) b)
unfolding add_route resolve
add_route-claim docs r b b' h = elim (Option-cases (find_capability r.capability_ref docs)) [
  | inl q ↦ absurd (let h' = rw q at h in ground arith)
  | inr (c, q) ↦ elim (Option-cases (find_source r.source_ref docs)) [
    | inl p ↦ absurd (let h' = rw (q, p) at h in ground arith)
    | inr (s, p) ↦ let h' = rw (q, p) at h in (c, s, ground arith, ground arith)
  ]
]

add_route-IsDisjointBuild :
    (docs : List Document) (r : RouteBinding) (b b' : Build)
    → r.uri_regex ≢ some ""
    → IsDisjointBuild b
    → add_route docs r b ≡ ok b'
    → IsDisjointBuild b'
unfolding compiled_route
add_route-IsDisjointBuild docs r b b' h d q =
    let (c, s, t, e) = add_route-claim docs r b b' q in
    rw e (
      claim-IsDisjointBuild r.method r.path (compiled_route r c s) r.uri_regex b refl refl
        (regex-compiled_route r c s h) t d)

add_endpoint-claim :
    (docs : List Document) (m : McpEndpointBinding) (b b' : Build)
    → add_endpoint docs m b ≡ ok b'
    → (is_taken m.method m.path none b ≡ false)
      × (b' ≡ claim m.method m.path none (compiled_endpoint m) b)
unfolding add_endpoint resolve
add_endpoint-claim docs m b b' h = elim (Option-cases (find_source m.source_ref docs)) [
  | inl p ↦ absurd (let h' = rw p at h in ground arith)
  | inr (s, p) ↦ let h' = rw p at h in (ground arith, ground arith)
]

add_endpoint-IsDisjointBuild :
    (docs : List Document) (m : McpEndpointBinding) (b b' : Build)
    → IsDisjointBuild b
    → add_endpoint docs m b ≡ ok b'
    → IsDisjointBuild b'
unfolding compiled_endpoint
add_endpoint-IsDisjointBuild docs m b b' d q =
    let (t, e) = add_endpoint-claim docs m b b' q in
    rw e (claim-IsDisjointBuild m.method m.path (compiled_endpoint m) none b refl refl refl t d)

add_mediation-claim :
    (m : McpMediationBinding) (b b' : Build)
    → add_mediation m b ≡ ok b'
    → (is_taken m.method m.path none b ≡ false)
      × (b' ≡ claim m.method m.path none (compiled_mediation m) b)
unfolding add_mediation
add_mediation-claim m b b' h = (ground arith, ground arith)

add_mediation-IsDisjointBuild :
    (m : McpMediationBinding) (b b' : Build)
    → IsDisjointBuild b
    → add_mediation m b ≡ ok b'
    → IsDisjointBuild b'
unfolding compiled_mediation
add_mediation-IsDisjointBuild m b b' d q =
    let (t, e) = add_mediation-claim m b b' q in
    rw e (claim-IsDisjointBuild m.method m.path (compiled_mediation m) none b refl refl refl t d)

module _ (docs : List Document) where
  add_routes-IsDisjointBuild :
      (ds : List Document) (b b' : Build)
      → All HasNoEmptyRegex ds
      → IsDisjointBuild b
      → add_routes docs ds b ≡ ok b'
      → IsDisjointBuild b'
  unfolding add_routes
  add_routes-IsDisjointBuild [] b b' h d q = rw (ok-injective q) at d
  add_routes-IsDisjointBuild (route r ∷ ds) b b' (h, hs) d q =
      elim (Outcome-cases (add_route docs r b)) [
        | inl (c, p) ↦
            add_routes-IsDisjointBuild ds c b' hs (add_route-IsDisjointBuild docs r b c h d p)
              (rw p at q)
        | inr (e, p) ↦ absurd (let q' = rw p at q in ground arith)
      ]
  add_routes-IsDisjointBuild (capability x ∷ ds) b b' (h, hs) d q =
      add_routes-IsDisjointBuild ds b b' hs d q
  add_routes-IsDisjointBuild (source x ∷ ds) b b' (h, hs) d q =
      add_routes-IsDisjointBuild ds b b' hs d q
  add_routes-IsDisjointBuild (extraction x ∷ ds) b b' (h, hs) d q =
      add_routes-IsDisjointBuild ds b b' hs d q
  add_routes-IsDisjointBuild (mcp_endpoint x ∷ ds) b b' (h, hs) d q =
      add_routes-IsDisjointBuild ds b b' hs d q
  add_routes-IsDisjointBuild (mcp_mediation x ∷ ds) b b' (h, hs) d q =
      add_routes-IsDisjointBuild ds b b' hs d q

  add_endpoints-IsDisjointBuild :
      (ds : List Document) (b b' : Build)
      → IsDisjointBuild b
      → add_endpoints docs ds b ≡ ok b'
      → IsDisjointBuild b'
  unfolding add_endpoints
  add_endpoints-IsDisjointBuild [] b b' d q = rw (ok-injective q) at d
  add_endpoints-IsDisjointBuild (mcp_endpoint m ∷ ds) b b' d q =
      elim (Outcome-cases (add_endpoint docs m b)) [
        | inl (c, p) ↦
            add_endpoints-IsDisjointBuild ds c b' (add_endpoint-IsDisjointBuild docs m b c d p)
              (rw p at q)
        | inr (e, p) ↦ absurd (let q' = rw p at q in ground arith)
      ]
  add_endpoints-IsDisjointBuild (capability x ∷ ds) b b' d q =
      add_endpoints-IsDisjointBuild ds b b' d q
  add_endpoints-IsDisjointBuild (source x ∷ ds) b b' d q = add_endpoints-IsDisjointBuild ds b b' d q
  add_endpoints-IsDisjointBuild (extraction x ∷ ds) b b' d q =
      add_endpoints-IsDisjointBuild ds b b' d q
  add_endpoints-IsDisjointBuild (route x ∷ ds) b b' d q = add_endpoints-IsDisjointBuild ds b b' d q
  add_endpoints-IsDisjointBuild (mcp_mediation x ∷ ds) b b' d q =
      add_endpoints-IsDisjointBuild ds b b' d q

add_mediations-IsDisjointBuild :
    (ds : List Document) (b b' : Build)
    → IsDisjointBuild b
    → add_mediations ds b ≡ ok b'
    → IsDisjointBuild b'
unfolding add_mediations
add_mediations-IsDisjointBuild [] b b' d q = rw (ok-injective q) at d
add_mediations-IsDisjointBuild (mcp_mediation m ∷ ds) b b' d q =
    elim (Outcome-cases (add_mediation m b)) [
      | inl (c, p) ↦
          add_mediations-IsDisjointBuild ds c b' (add_mediation-IsDisjointBuild m b c d p)
            (rw p at q)
      | inr (e, p) ↦ absurd (let q' = rw p at q in ground arith)
    ]
add_mediations-IsDisjointBuild (capability x ∷ ds) b b' d q =
    add_mediations-IsDisjointBuild ds b b' d q
add_mediations-IsDisjointBuild (source x ∷ ds) b b' d q = add_mediations-IsDisjointBuild ds b b' d q
add_mediations-IsDisjointBuild (extraction x ∷ ds) b b' d q =
    add_mediations-IsDisjointBuild ds b b' d q
add_mediations-IsDisjointBuild (route x ∷ ds) b b' d q = add_mediations-IsDisjointBuild ds b b' d q
add_mediations-IsDisjointBuild (mcp_endpoint x ∷ ds) b b' d q =
    add_mediations-IsDisjointBuild ds b b' d q

-- Where no route has an empty URI regex, any two routes of a compiled configuration that share
-- the method and the path have two different URI regexes: no two of them are one match.
pub compile_config-AllDisjoint :
    (docs : List Document) (routes : List CompiledRoute)
    → All HasNoEmptyRegex docs
    → compile_config docs ≡ ok routes
    → AllDisjoint routes
unfolding compile_config
compile_config-AllDisjoint docs routes h q = elim (Outcome-cases (check_index docs)) [
  | inr (e, p) ↦ absurd (let q' = rw p at q in ground arith)
  | inl (u, p) ↦ elim (Outcome-cases (check_extractions docs docs)) [
    | inr (e, p2) ↦ absurd (let q' = rw (p, p2) at q in ground arith)
    | inl (u2, p2) ↦ elim (Outcome-cases (add_routes docs docs empty_build)) [
      | inr (e, p3) ↦ absurd (let q' = rw (p, p2, p3) at q in ground arith)
      | inl (b, p3) ↦ elim (Outcome-cases (add_endpoints docs docs b)) [
        | inr (e, p4) ↦ absurd (let q' = rw (p, p2, p3, p4) at q in ground arith)
        | inl (b2, p4) ↦ elim (Outcome-cases (add_mediations docs b2)) [
          | inr (e, p5) ↦ absurd (let q' = rw (p, p2, p3, p4, p5) at q in ground arith)
          | inl (b3, p5) ↦
              let d =
                add_routes-IsDisjointBuild docs docs empty_build b h
                  (record { claimed = tt; disjoint = tt }) p3 in
              let d2 = add_endpoints-IsDisjointBuild docs docs b b2 d p4 in
              let d3 = add_mediations-IsDisjointBuild docs b2 b3 d2 p5 in
              let e : sort_by (λ (r : CompiledRoute). r.id) b3.routes ≡ routes =
                let q' = rw (p, p2, p3, p4, p5) at q in ground arith in
              let sorted = AllDisjoint-sort_by (λ r. r.id) b3.routes d3.disjoint in rw e at sorted
        ]
      ]
    ]
  ]
]
