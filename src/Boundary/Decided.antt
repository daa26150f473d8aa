-- ===== src/Boundary/Decided.antt =====
-- Authentication and coarse authorization, one after the other.
use ouf_api_gateway.Base.{
  ◌∙◌, sym, ◌≡◌, ◌≢◌, ◌↔◌, refl, inl, inr, true, false, Option, some, String, List, [], ◌∷◌, ok,
  arith, Option-cases, Bool-cases, contains, ◌==◌, string_eq, eq_iff,
}
use ouf_api_gateway.Boundary.Identity.{
  VerifiedCredential, TrustBinding, NormalizedIdentity, binding_of, normalize, authenticate,
  actor_types, or_else_text, is_binding_of,
}
use ouf_api_gateway.Boundary.Authorization.{
  scope_missing, allow_coarse, CoarseAuthorizationDecision, authorize,
}

binding_of-key :
    (issuer subject : String) (bs : List TrustBinding) (b : TrustBinding)
    → binding_of issuer subject bs ≡ some b
    → (b.issuer ≡ issuer) × (b.subject ≡ subject)
unfolding binding_of
binding_of-key issuer subject [] b h = absurd (ground arith)
binding_of-key issuer subject (x ∷ bs) b h = elim (Option-cases (binding_of issuer subject bs)) [
  | inr (later, q) ↦
      let h' = rw (q, binding_of) at h in binding_of-key issuer subject bs b (rw q h')
  | inl q ↦ elim (Bool-cases (is_binding_of issuer subject x)) [
    | inr off ↦ absurd (let h' = rw (q, off, binding_of) at h in ground arith)
    | inl on ↦
        let h' = rw (q, on, binding_of) at h in
        (ground (arith, eq_iff x.issuer issuer), ground (arith, eq_iff x.subject subject))
  ]
]

non-empty : (s : String) → (s == "") ≡ false → s ≢ ""
non-empty s h e = ground (arith, eq_iff s "")

kept_tenant : (s t : String) → s ≢ "" → or_else_text s t ≡ s
kept_tenant s t n = ground (arith, eq_iff s "")

module _ (verify : String → Option VerifiedCredential) (bindings : List TrustBinding) where
  -- An identity is made of a credential that was verified and of the binding that governs it.
  pub record IsBoundIdentity (raw_credential : String) (i : NormalizedIdentity) : Type 0 where
    pub credential : VerifiedCredential
    pub binding : TrustBinding
    pub presented : raw_credential ≢ ""
    pub verified : verify raw_credential ≡ some credential
    pub governed : binding_of credential.issuer credential.subject bindings ≡ some binding
    pub same_issuer : binding.issuer ≡ i.issuer
    pub same_subject : binding.subject ≡ i.principal_id
    pub audience : contains credential.audience binding.required_audience ≡ true
    pub service : i.service_principal_id ≡ binding.service_principal_id
    pub tenant : i.tenant_id ≢ ""
    pub own_tenant : credential.tenant_id ≢ "" → i.tenant_id ≡ credential.tenant_id
    pub actor : contains actor_types i.actor_type ≡ true
    pub scopes : i.scopes ≡ credential.scopes
    pub evidence : i.credential_id ≢ ""
    pub context : i.authentication_context_ref ≢ ""

  -- `authenticate` returns only identities that are bound: the credential was verified, the last
  -- trust binding of its issuer and subject governs it and names its audience, the tenant and the
  -- evidence are there, a tenant of the credential is kept, and the actor type is a known one.
  pub authenticate-IsBoundIdentity :
      (raw : String) (i : NormalizedIdentity)
      → authenticate verify bindings raw ≡ ok i
      → IsBoundIdentity raw i
  unfolding authenticate normalize
  authenticate-IsBoundIdentity raw i h = elim (Option-cases (verify raw)) [
    | inl q ↦ absurd (let h' = rw q at h in ground arith)
    | inr (v, q) ↦ elim (Option-cases (binding_of v.issuer v.subject bindings)) [
      | inl p ↦ absurd (let h' = rw (q, p) at h in ground arith)
      | inr (b, p) ↦
          let h' = rw (q, p) at h in
          let (k1, k2) = binding_of-key v.issuer v.subject bindings b p in
          let present : (raw == "") ≡ false = ground arith in
          let has_id : (v.credential_id == "") ≡ false = ground arith in
          let has_context : (v.authentication_context_ref == "") ≡ false = ground arith in
          let has_tenant : (or_else_text v.tenant_id b.tenant_id == "") ≡ false = ground arith in
          let same_tenant : i.tenant_id ≡ or_else_text v.tenant_id b.tenant_id = ground arith in
          let same_id : i.credential_id ≡ v.credential_id = ground arith in
          let same_context : i.authentication_context_ref ≡ v.authentication_context_ref =
            ground arith in
          record {
            credential = v;
            binding = b;
            presented = non-empty raw present;
            verified = q;
            governed = p;
            same_issuer = ground arith;
            same_subject = ground arith;
            audience = ground arith;
            service = ground arith;
            tenant = λ e.
                non-empty (or_else_text v.tenant_id b.tenant_id) has_tenant (sym same_tenant ∙ e);
            own_tenant = λ n. same_tenant ∙ kept_tenant v.tenant_id b.tenant_id n;
            actor = ground arith;
            scopes = ground arith;
            evidence = λ e. non-empty v.credential_id has_id (sym same_id ∙ e);
            context =
                λ e. non-empty v.authentication_context_ref has_context (sym same_context ∙ e);
          }
    ]
  ]

  -- An identity that `authenticate` returned is decided for every named capability and scope,
  -- never refused: the decision allows exactly the scopes that the identity holds.
  pub authorize_decided :
      (raw : String) (i : NormalizedIdentity) (capability_id required_scope : String)
      → authenticate verify bindings raw ≡ ok i
      → capability_id ≢ ""
      → required_scope ≢ ""
      → (d : CoarseAuthorizationDecision) × (authorize i capability_id required_scope ≡ ok d)
        × ((d.allowed ≡ true) ↔ (contains i.scopes required_scope ≡ true))
  unfolding authorize
  authorize_decided raw i c s h nc ns =
      let b = authenticate-IsBoundIdentity raw i h in
      let (e1, e2, e3) : (c == "" ≡ false) × (s == "" ≡ false) × (i.tenant_id == "" ≡ false) = (
        ground (arith, eq_iff c "", nc),
        ground (arith, eq_iff s "", ns),
        ground (arith, eq_iff i.tenant_id "", b.tenant),
      ) in
      elim (Bool-cases (contains i.scopes s)) [
        | inl on ↦ (
          record {
            allowed = true;
            decision_code = allow_coarse;
            capability_id = c;
            required_scope = s;
          },
          rw (e1, e2, e3, b.actor, on) refl,
          (λ x. on, λ x. refl),
        )
        | inr off ↦ (
          record {
            allowed = false;
            decision_code = scope_missing;
            capability_id = c;
            required_scope = s;
          },
          rw (e1, e2, e3, b.actor, off) refl,
          (λ x. absurd (ground arith), λ x. absurd (ground arith)),
        )
      ]
