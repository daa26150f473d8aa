-- ===== src/Mcp/Checked.antt =====
-- What the checks of tools/mcp_dispatch.py have found.
use Prim.Native.String
use ouf_api_gateway.Base.{
  ap, ◌∙◌, ◌≤◌, ◌≡◌, ◌⊎◌, refl, inl, inr, true, not, some, String, List, [], ◌∷◌, Outcome, ok,
  raised, arith, All, Outcome-cases, Option-cases, contains, is_empty, string_eq, eq_iff, length,
}
use ouf_api_gateway.Base.Dict.{Dict}
use ouf_api_gateway.Mcp.Envelope.{
  Failure, TrustedIdentity, Bytes, BackendResponse, UpstreamCall, header,
}
use ouf_api_gateway.Mcp.Dispatch.{
  Envelope, BodyIdentity, Bound, check_contract, check_access, check_headers, governance_header,
  has_scope, allowed_services, is_claimed, send,
}

-- The request is one that the bound route publishes.
pub record Contract (raw_body : Bytes) (e : Envelope) (b : Bound) : Type 0 where
  pub bounded : length raw_body ≤ b.route.policy.max_request_bytes
  pub binding : e.gateway_binding_ref ≡ String.◌++◌ "capability://" b.capability.capability_id
  pub operation : e.operation_class ≡ b.capability.operation_type
  pub owner : e.owner ≡ b.capability.owner

-- The caller may use the route, and the body claims the caller's own identity.
pub record Access (service_identity : String) (e : Envelope) (b : Bound) (i : TrustedIdentity)
    : Type 0 where
  pub service :
      contains
        (allowed_services service_identity b.route.policy.allowed_service_identities)
        i.service_principal_id
      ≡ true
  pub actor :
      (b.route.policy.allowed_actor_types ≡ [])
      ⊎ (contains b.route.policy.allowed_actor_types i.actor_type ≡ true)
  pub human : b.capability.human_required ≡ true → i.actor_type ≡ "HUMAN_USER"
  pub scope : has_scope b.route.policy.required_scope i.scopes ≡ true
  pub service_principal_id : e.identity.service_principal_id ≡ i.service_principal_id
  pub principal_id : e.identity.principal_id ≡ i.principal_id
  pub tenant_id : e.identity.tenant_id ≡ i.tenant_id
  pub actor_type : e.identity.actor_type ≡ i.actor_type
  pub authentication_context_ref :
      e.identity.authentication_context_ref ≡ i.authentication_context_ref
  pub decision : e.authorization_decision_ref ≡ i.authorization_decision_ref

pub record Governed (e : Envelope) (headers : Dict String) : Type 0 where
  pub correlation : header "x-correlation-id" headers ≡ some e.correlation_id
  pub idempotency : header "idempotency-key" headers ≡ some e.idempotency_key
  pub attempt : header "x-tool-attempt-id" headers ≡ some e.attempt_id

pub check_contract-Contract :
    (raw : Bytes) (e : Envelope) (b : Bound) → check_contract raw e b ≡ ok tt → Contract raw e b
unfolding check_contract
check_contract-Contract raw e b h = record {
  bounded = ground arith;
  binding = ground (
    arith,
    eq_iff e.gateway_binding_ref (String.◌++◌ "capability://" b.capability.capability_id),
  );
  operation = ground (arith, eq_iff e.operation_class b.capability.operation_type);
  owner = ground (arith, eq_iff e.owner b.capability.owner);
}

is_claimed-fields :
    (d : BodyIdentity) (i : TrustedIdentity)
    → is_claimed d i ≡ true
    → (d.service_principal_id ≡ i.service_principal_id)
      × (d.principal_id ≡ i.principal_id)
      × (d.tenant_id ≡ i.tenant_id)
      × (d.actor_type ≡ i.actor_type)
      × (d.authentication_context_ref ≡ i.authentication_context_ref)
unfolding is_claimed
is_claimed-fields d i h = (
  ground (arith, eq_iff d.service_principal_id i.service_principal_id),
  ground (arith, eq_iff d.principal_id i.principal_id),
  ground (arith, eq_iff d.tenant_id i.tenant_id),
  ground (arith, eq_iff d.actor_type i.actor_type),
  ground (arith, eq_iff d.authentication_context_ref i.authentication_context_ref),
)

actors_allowed :
    (actors : List String) (a : String)
    → (not (is_empty actors) ≡ true → contains actors a ≡ true)
    → (actors ≡ []) ⊎ (contains actors a ≡ true)
actors_allowed [] a h = inl refl
actors_allowed (x ∷ xs) a h = inr (h refl)

pub check_access-Access :
    (s : String) (e : Envelope) (b : Bound) (i : TrustedIdentity)
    → check_access s e b i ≡ ok tt
    → Access s e b i
unfolding check_access
check_access-Access s e b i h =
    let claimed : is_claimed e.identity i ≡ true = ground arith in
    let (c1, c2, c3, c4, c5) = is_claimed-fields e.identity i claimed in
    record {
      service = ground arith;
      actor = actors_allowed b.route.policy.allowed_actor_types i.actor_type (λ n. ground arith);
      human = λ required. ground (arith, eq_iff i.actor_type "HUMAN_USER");
      scope = ground arith;
      service_principal_id = c1;
      principal_id = c2;
      tenant_id = c3;
      actor_type = c4;
      authentication_context_ref = c5;
      decision = ground (arith, eq_iff e.authorization_decision_ref i.authorization_decision_ref);
    }

governance_header-header :
    (name lowered : String) (headers : Dict String) (v : String)
    → governance_header name lowered headers ≡ ok v
    → header lowered headers ≡ some v
unfolding governance_header
governance_header-header name lowered headers v h = elim (Option-cases (header lowered headers)) [
  | inl q ↦ absurd (let h' = rw (q, governance_header) at h in ground arith)
  | inr (w, q) ↦ let h' = rw (q, governance_header) at h in rw q (ground arith)
]

pub check_headers-Governed :
    (e : Envelope) (headers : Dict String) → check_headers e headers ≡ ok tt → Governed e headers
unfolding check_headers
check_headers-Governed e headers h =
    elim (Outcome-cases (governance_header "X-Correlation-ID" "x-correlation-id" headers)) [
      | inr (f, q) ↦ absurd (let h' = rw q at h in ground arith)
      | inl (c, q) ↦
          elim (Outcome-cases (governance_header "Idempotency-Key" "idempotency-key" headers)) [
            | inr (f, p) ↦ absurd (let h' = rw (q, p) at h in ground arith)
            | inl (k, p) ↦
                elim (Outcome-cases
                  (governance_header "X-Tool-Attempt-ID" "x-tool-attempt-id" headers)) [
                    | inr (f, o) ↦ absurd (let h' = rw (q, p, o) at h in ground arith)
                    | inl (a, o) ↦
                        let h' = rw (q, p, o) at h in
                        record {
                          correlation =
                              governance_header-header "X-Correlation-ID" "x-correlation-id" headers
                                c q
                              ∙ ap some (ground (arith, eq_iff c e.correlation_id));
                          idempotency =
                              governance_header-header "Idempotency-Key" "idempotency-key" headers k
                                p
                              ∙ ap some (ground (arith, eq_iff k e.idempotency_key));
                          attempt =
                              governance_header-header "X-Tool-Attempt-ID" "x-tool-attempt-id"
                                headers a o
                              ∙ ap some (ground (arith, eq_iff a e.attempt_id));
                        }
                  ]
          ]
    ]

pub All-send :
    (execute : UpstreamCall → Outcome Failure BackendResponse) (P : UpstreamCall → Type 0)
    (o : Outcome Failure UpstreamCall)
    → ((call : UpstreamCall) → o ≡ ok call → P call)
    → All P (send execute o).0
unfolding send
All-send execute P (raised f) h = tt
All-send execute P (ok call) h = (h call refl, tt)
