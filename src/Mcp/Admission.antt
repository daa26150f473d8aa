-- ===== src/Mcp/Admission.antt =====
-- What has been checked when the dispatcher calls the upstream.
use mathlib.Core.Path.{subst}
use ouf_api_gateway.Base.{
  ◌≡◌, refl, inl, inr, some, String, List, [], Outcome, ok, arith, All, ok-injective, Outcome-cases,
  Option-cases, string_eq,
}
use ouf_api_gateway.Base.Dict.{Dict, lookup, AllEntries-lookup}
use ouf_api_gateway.Config.Compile.{CompiledRoute}
use ouf_api_gateway.Mcp.Envelope.{Failure, TrustedIdentity, Bytes, BackendResponse, UpstreamCall}
use ouf_api_gateway.Mcp.Dispatch.{
  Envelope, Bound, check_contract, check_access, check_headers, upstream_call, downstream_headers,
  admit, dispatch, bind_routes,
}
use ouf_api_gateway.Mcp.Binding.{IsMcpBinding, bind_routes-IsMcpTable}
use ouf_api_gateway.Mcp.Checked.{
  Access, All-send, Contract, Governed, check_access-Access, check_contract-Contract,
  check_headers-Governed,
}

module _ (decode : Bytes → Outcome String Envelope) (encode : Dict String → Bytes)
    (execute : UpstreamCall → Outcome Failure BackendResponse) (s : String)
    (rs : List CompiledRoute) where
  -- What is known of a call that the upstream receives.
  pub record Authorised (raw_body : Bytes) (headers : Dict String) (i : TrustedIdentity)
      (call : UpstreamCall) : Type 0 where
    pub envelope : Envelope
    pub bound : Bound
    pub decoded : decode raw_body ≡ ok envelope
    pub mcp_binding : IsMcpBinding s rs envelope.capability_id bound
    pub contract : Contract raw_body envelope bound
    pub access : Access s envelope bound i
    pub governed : Governed envelope headers
    pub service : bound.route.service_id ≡ some call.service
    pub path : bound.route.rewrite_uri ≡ some call.path
    pub sent_body : call.body ≡ encode envelope.arguments
    pub sent_headers : call.headers ≡ downstream_headers envelope bound.capability i
    pub timeout : call.timeout_seconds ≡ bound.route.policy.timeout_seconds

  abbrev IsCallOf : Envelope → Bound → TrustedIdentity → UpstreamCall → Type 0
  IsCallOf e b i call =
      (b.route.service_id ≡ some call.service)
      × (b.route.rewrite_uri ≡ some call.path)
      × (call.body ≡ encode e.arguments)
      × (call.headers ≡ downstream_headers e b.capability i)
      × (call.timeout_seconds ≡ b.route.policy.timeout_seconds)

  upstream_call-fields :
      (e : Envelope) (b : Bound) (i : TrustedIdentity) (call : UpstreamCall)
      → upstream_call encode e b i ≡ ok call
      → IsCallOf e b i call
  unfolding upstream_call
  upstream_call-fields e b i call h = elim (Option-cases b.route.service_id) [
    | inl q ↦ absurd (let h' = rw (q, upstream_call) at h in ground arith)
    | inr (service, q) ↦ elim (Option-cases b.route.rewrite_uri) [
      | inl p ↦ absurd (let h' = rw (q, p, upstream_call) at h in ground arith)
      | inr (uri, p) ↦
          let h' = rw (q, p, upstream_call) at h in
          subst (IsCallOf e b i) (ok-injective h') (q, p, refl, refl, refl)
    ]
  ]

  admit-Authorised :
      (t : Dict Bound) (raw : Bytes) (headers : Dict String) (i : TrustedIdentity)
      (call : UpstreamCall)
      → bind_routes s rs [] ≡ ok t
      → admit decode encode execute s t raw headers i ≡ ok call
      → Authorised raw headers i call
  unfolding admit
  admit-Authorised t raw headers i call bound h = elim (Outcome-cases (decode raw)) [
    | inr (f, q) ↦ absurd (let h' = rw q at h in ground arith)
    | inl (e, q) ↦ elim (Option-cases (lookup e.capability_id t)) [
      | inl p ↦ absurd (let h' = rw (q, p) at h in ground arith)
      | inr (b, p) ↦
          let h1 = rw (q, p) at h in
          elim (Outcome-cases (check_contract raw e b)) [
            | inr (f, o) ↦ absurd (let h2 = rw o at h1 in ground arith)
            | inl (u, o) ↦ elim (Outcome-cases (check_access s e b i)) [
              | inr (f, n) ↦ absurd (let h2 = rw (o, n) at h1 in ground arith)
              | inl (v, n) ↦ elim (Outcome-cases (check_headers e headers)) [
                | inr (f, m) ↦ absurd (let h2 = rw (o, n, m) at h1 in ground arith)
                | inl (w, m) ↦
                    let h2 = rw (o, n, m) at h1 in
                    let sent : upstream_call encode e b i ≡ ok call = ground arith in
                    let (f1, f2, f3, f4, f5) = upstream_call-fields e b i call sent in
                    record {
                      envelope = e;
                      bound = b;
                      decoded = q;
                      mcp_binding =
                          AllEntries-lookup (IsMcpBinding s rs) e.capability_id b t
                            (bind_routes-IsMcpTable s rs t bound) p;
                      contract = check_contract-Contract raw e b o;
                      access = check_access-Access s e b i n;
                      governed = check_headers-Governed e headers m;
                      service = f1;
                      path = f2;
                      sent_body = f3;
                      sent_headers = f4;
                      timeout = f5;
                    }
              ]
            ]
          ]
    ]
  ]

  -- Where the table is bound from the compiled routes, every call that `dispatch` makes goes to a
  -- compiled, tool-eligible, internal M2M route of this service, with the route's service, path
  -- and timeout; the request keeps the route's contract and size bound, the caller has access and
  -- is the identity that the body claims, the governance headers are those of the body, and the
  -- headers sent carry the authenticated identity.
  pub dispatch-Authorised :
      (t : Dict Bound) (raw : Bytes) (headers : Dict String) (i : TrustedIdentity)
      → bind_routes s rs [] ≡ ok t
      → All (Authorised raw headers i) (dispatch decode encode execute s t raw headers i).0
  unfolding dispatch
  dispatch-Authorised t raw headers i bound =
      All-send execute (Authorised raw headers i) (admit decode encode execute s t raw headers i)
        (λ call q. admit-Authorised t raw headers i call bound q)
