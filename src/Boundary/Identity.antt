-- ===== src/Boundary/Identity.antt =====
-- `IdentityBoundary` of tools/identity_boundary.py.
use ouf_api_gateway.Base.{
  Bool, ◌&&◌, ◌||◌, Option, none, some, String, List, [], ◌∷◌, Outcome, ok, raised, forbid, require,
  ◌>>◌, ◌>>=◌, ◌==◌, string_eq, if◌then◌else◌, contains,
}

pub data IdentityRejected : Type 0 where
  credential_missing credential_invalid identity_unbound audience_mismatch : IdentityRejected
  verification_evidence_missing tenant_context_missing actor_type_invalid : IdentityRejected

pub record VerifiedCredential : Type 0 where
  pub issuer : String
  pub subject : String
  pub audience : List String
  pub scopes : List String
  pub credential_id : String
  pub authentication_context_ref : String
  pub tenant_id : String

pub record NormalizedIdentity : Type 0 where
  pub service_principal_id : String
  pub principal_id : String
  pub tenant_id : String
  pub actor_type : String
  pub issuer : String
  pub audience : List String
  pub scopes : List String
  pub credential_id : String
  pub authentication_context_ref : String

pub record TrustBinding : Type 0 where
  pub issuer : String
  pub subject : String
  pub service_principal_id : String
  pub actor_type : String
  pub required_audience : String
  pub tenant_id : String

abbrev pub is_binding_of : String → String → TrustBinding → Bool
is_binding_of issuer subject b = (b.issuer == issuer) && (b.subject == subject)

-- `{(b.issuer, b.subject): b ...}.get(...)`: the last binding of the issuer and the subject.
unfoldable pub binding_of : String → String → List TrustBinding → Option TrustBinding
binding_of issuer subject [] = none
binding_of issuer subject (b ∷ bs) = elim (binding_of issuer subject bs) [
  | some later ↦ some later
  | none ↦ if is_binding_of issuer subject b then some b else none
]

abbrev pub actor_types : List String
actor_types = "HUMAN" ∷ "SERVICE" ∷ "AI_AGENT" ∷ []

-- `a or b`
abbrev pub or_else_text : String → String → String
or_else_text a b = if a == "" then b else a

unfoldable pub normalize :
    VerifiedCredential → TrustBinding → Outcome IdentityRejected NormalizedIdentity
normalize v b = do
  require (contains v.audience b.required_audience) audience_mismatch
  forbid ((v.credential_id == "") || (v.authentication_context_ref == ""))
      verification_evidence_missing
  forbid (or_else_text v.tenant_id b.tenant_id == "") tenant_context_missing
  require (contains actor_types b.actor_type) actor_type_invalid
  ok (record {
    service_principal_id = b.service_principal_id;
    principal_id = v.subject;
    tenant_id = or_else_text v.tenant_id b.tenant_id;
    actor_type = b.actor_type;
    issuer = v.issuer;
    audience = v.audience;
    scopes = v.scopes;
    credential_id = v.credential_id;
    authentication_context_ref = v.authentication_context_ref;
  })

abbrev pub verified_credential :
    Option VerifiedCredential → Outcome IdentityRejected VerifiedCredential
verified_credential none = raised credential_invalid
verified_credential (some v) = ok v

abbrev pub trust_binding : Option TrustBinding → Outcome IdentityRejected TrustBinding
trust_binding none = raised identity_unbound
trust_binding (some b) = ok b

-- `verify` is the credential verifier; `none` stands for whatever it raises.
unfoldable pub authenticate :
    (String → Option VerifiedCredential)
    → List TrustBinding
    → String
    → Outcome IdentityRejected NormalizedIdentity
unfolding normalize
authenticate verify bindings raw_credential = do
  forbid (raw_credential == "") credential_missing
  v ← verified_credential (verify raw_credential)
  b ← trust_binding (binding_of v.issuer v.subject bindings)
  normalize v b
