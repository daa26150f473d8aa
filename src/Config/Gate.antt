-- ===== src/Config/Gate.antt =====
-- What the activation gate promises: the conditions of an activatable route, and its evidence.
use ouf_api_gateway.Base.{
  ◌≡◌, ◌≢◌, ◌↔◌, refl, inl, inr, Bool, true, false, Option, none, some, String, ok, arith, eq_iff,
  Outcome-cases,
}
use ouf_api_gateway.Config.Documents.{
  Capability, SourceRuntimeProfile, ExtractionRuntimeProfile, RouteBinding, ref,
}
use ouf_api_gateway.Config.Activation.{
  ActivationEvidence, is_other_service, check_extraction, check_authorization,
  validate_route_activation,
}

-- The extraction profile of a route that names one is that profile, and reads the route's source.
abbrev pub ExtractionMatches : String → Option String → Option ExtractionRuntimeProfile → Type 0
ExtractionMatches source_ref none profile = Unit
ExtractionMatches source_ref (some r) none = r ≡ ""
ExtractionMatches source_ref (some r) (some e) =
    r ≢ "" → (ref e.metadata ≡ r) × (e.source_ref ≡ source_ref)

abbrev pub IsAuthorized : Option (String → String → Bool) → String → String → Type 0
IsAuthorized none capability_ref scope = Unit
IsAuthorized (some binding_exists) capability_ref scope = binding_exists capability_ref scope ≡ true

module _ (route : RouteBinding) (capability : Capability) (source : SourceRuntimeProfile)
    (extraction : Option ExtractionRuntimeProfile)
    (authorization : Option (String → String → Bool)) where
  pub record IsActivatable : Type 0 where
    pub capability_named : ref capability.metadata ≡ route.capability_ref
    pub source_named : ref source.metadata ≡ route.source_ref
    pub extraction_matches :
        ExtractionMatches route.source_ref route.extraction_profile_ref extraction
    pub same_service : is_other_service source.endpoint_ref route.backend.service ≡ false
    pub authorized : IsAuthorized authorization route.capability_ref capability.scope

check_extraction-ExtractionMatches :
    (s : String) (r : Option String) (p : Option ExtractionRuntimeProfile)
    → (check_extraction s r p ≡ ok tt) ↔ ExtractionMatches s r p
unfolding check_extraction
check_extraction-ExtractionMatches s none p = (λ h. tt, λ h. refl)
check_extraction-ExtractionMatches s (some r) none =
    (λ h. ground (arith, eq_iff r ""), λ h. ground (arith, eq_iff r ""))
check_extraction-ExtractionMatches s (some r) (some e) = (
  λ h n. (
    ground (arith, eq_iff r "", eq_iff (ref e.metadata) r, eq_iff e.source_ref s),
    ground (arith, eq_iff r "", eq_iff (ref e.metadata) r, eq_iff e.source_ref s),
  ),
  λ h. ground (arith, eq_iff r "", eq_iff (ref e.metadata) r, eq_iff e.source_ref s, h),
)

IsAuthorized-only :
    (a : Option (String → String → Bool)) (k scope : String) (b : Bool)
    → check_authorization a k scope ≡ ok b
    → IsAuthorized a k scope
unfolding check_authorization
IsAuthorized-only none k scope b h = tt
IsAuthorized-only (some f) k scope b h = ground arith

IsAuthorized-returns :
    (a : Option (String → String → Bool)) (k scope : String)
    → IsAuthorized a k scope
    → (b : Bool) × (check_authorization a k scope ≡ ok b)
unfolding check_authorization
IsAuthorized-returns none k scope h = (false, refl)
IsAuthorized-returns (some f) k scope h = (true, ground arith)

module _ (r : RouteBinding) (c : Capability) (s : SourceRuntimeProfile)
    (x : Option ExtractionRuntimeProfile) (a : Option (String → String → Bool)) where
  gate_only :
      (e : ActivationEvidence)
      → validate_route_activation r c s x a ≡ ok e
      → IsActivatable r c s x a
  unfolding validate_route_activation
  gate_only e h = elim (Outcome-cases (check_extraction r.source_ref r.extraction_profile_ref x)) [
    | inr (f, q) ↦ absurd (let h' = rw q at h in ground arith)
    | inl (u, q) ↦
        let h' = rw q at h in
        record {
          capability_named = ground (arith, eq_iff (ref c.metadata) r.capability_ref);
          source_named = ground (arith, eq_iff (ref s.metadata) r.source_ref);
          extraction_matches =
              (check_extraction-ExtractionMatches r.source_ref r.extraction_profile_ref x).0 q;
          same_service = ground arith;
          authorized = elim (Outcome-cases (check_authorization a r.capability_ref c.scope)) [
            | inl (b, p) ↦ IsAuthorized-only a r.capability_ref c.scope b p
            | inr (f, p) ↦ absurd (let h2 = rw p at h' in ground arith)
          ];
        }
  ]

  gate_exactly :
      IsActivatable r c s x a
      → (e : ActivationEvidence) × (validate_route_activation r c s x a ≡ ok e)
  unfolding validate_route_activation
  gate_exactly h =
      let q =
        (check_extraction-ExtractionMatches r.source_ref r.extraction_profile_ref x).1
          h.extraction_matches in
      let (b, p) = IsAuthorized-returns a r.capability_ref c.scope h.authorized in
      let evidence : ActivationEvidence = record {
        capability_ref = r.capability_ref;
        source_ref = r.source_ref;
        extraction_ref = r.extraction_profile_ref;
        backend_service = r.backend.service;
        authorization_checked = b;
      } in
      (
        evidence,
        rw (q, p)
            (ground (
              arith,
              h.capability_named,
              h.source_named,
              h.same_service,
              eq_iff (ref c.metadata) r.capability_ref,
              eq_iff (ref s.metadata) r.source_ref,
            )),
      )

  -- The gate returns evidence for exactly the activatable routes: the references agree, an
  -- extraction profile is the one that is named and reads the same source, a service endpoint is
  -- the route's backend, and the authorization gate, where there is one, holds the binding.
  pub validate_route_activation-IsActivatable :
      ((e : ActivationEvidence) × (validate_route_activation r c s x a ≡ ok e))
      ↔ IsActivatable r c s x a
  validate_route_activation-IsActivatable = (λ p. gate_only p.0 p.1, gate_exactly)
