-- ===== src/Mcp/Binding.antt =====
-- The table that `MCPDispatcher.__init__` of tools/mcp_dispatch.py binds.
use mathlib.Core.Path.{subst}
use mathlib.Core.List.{Memᴰ}
use ouf_api_gateway.Base.{
  ◌≡◌, refl, inl, inr, true, some, String, List, [], ◌∷◌, ok, arith, Outcome-cases, Option-cases,
  Bool-cases, string_eq,
}
use ouf_api_gateway.Base.Dict.{Dict, lookup, AllEntries, AllEntries-insert}
use ouf_api_gateway.Config.Compile.{CompiledRoute}
use ouf_api_gateway.Mcp.Dispatch.{Bound, is_mcp_route, bind_route, bind_routes}

-- A route of the configuration that a dispatcher of this service identity may serve.
pub record IsMcpBinding (service_identity : String) (rs : List CompiledRoute) (k : String)
    (b : Bound) : Type 0 where
  pub key : b.capability.capability_id ≡ k
  pub own : b.route.route_capability ≡ some b.capability
  pub served : is_mcp_route service_identity b.route b.capability ≡ true
  pub compiled : Memᴰ b.route rs

module _ (s : String) (all_routes : List CompiledRoute) where
  bind_route-IsMcpTable :
      (r : CompiledRoute) (t t' : Dict Bound)
      → Memᴰ r all_routes
      → AllEntries (IsMcpBinding s all_routes) t
      → bind_route s r t ≡ ok t'
      → AllEntries (IsMcpBinding s all_routes) t'
  unfolding bind_route is_mcp_route
  bind_route-IsMcpTable r t t' m h q = elim (Option-cases r.route_capability) [
    | inl p ↦ let q' = rw p at q in subst (AllEntries (IsMcpBinding s all_routes)) (ground arith) h
    | inr (c, p) ↦ elim (Bool-cases (is_mcp_route s r c)) [
      | inr off ↦
          let q' = rw (p, off) at q in
          subst (AllEntries (IsMcpBinding s all_routes)) (ground arith) h
      | inl on ↦ elim (Option-cases (lookup c.capability_id t)) [
        | inr (b, there) ↦ absurd (let q' = rw (p, on, there) at q in ground arith)
        | inl free ↦
            let q' = rw (p, on, free) at q in
            let b : Bound = record { route = r; capability = c } in
            subst (AllEntries (IsMcpBinding s all_routes)) (ground arith) (
              AllEntries-insert (IsMcpBinding s all_routes) c.capability_id b t
                (record { key = refl; own = p; served = on; compiled = m }) h)
      ]
    ]
  ]

  bind_all-IsMcpTable :
      (rs : List CompiledRoute) (t t' : Dict Bound)
      → ((r : CompiledRoute) → Memᴰ r rs → Memᴰ r all_routes)
      → AllEntries (IsMcpBinding s all_routes) t
      → bind_routes s rs t ≡ ok t'
      → AllEntries (IsMcpBinding s all_routes) t'
  unfolding bind_routes
  bind_all-IsMcpTable [] t t' m h q =
      subst (AllEntries (IsMcpBinding s all_routes)) (ground arith) h
  bind_all-IsMcpTable (r ∷ rs) t t' m h q = elim (Outcome-cases (bind_route s r t)) [
    | inr (f, p) ↦ absurd (let q' = rw p at q in ground arith)
    | inl (t1, p) ↦
        bind_all-IsMcpTable rs t1 t' (λ x i. m x (Memᴰ.tail i))
          (bind_route-IsMcpTable r t t1 (m r (Memᴰ.head refl)) h p) (let q' = rw p at q in q')
  ]

  pub bind_routes-IsMcpTable :
      (t : Dict Bound)
      → bind_routes s all_routes [] ≡ ok t
      → AllEntries (IsMcpBinding s all_routes) t
  bind_routes-IsMcpTable t q = bind_all-IsMcpTable all_routes [] t (λ r i. i) tt q
