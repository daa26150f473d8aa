-- ===== src/Boundary/Tests.antt =====
-- Concrete credentials and bindings.
use ouf_api_gateway.Base.{
  ◌≡◌, refl, Option, none, some, String, [], ◌∷◌, ok, ◌==◌, string_eq, if◌then◌else◌,
}
use ouf_api_gateway.Boundary.Identity.{
  VerifiedCredential, TrustBinding, NormalizedIdentity, authenticate, normalize, binding_of,
}
use ouf_api_gateway.Boundary.Decided.{IsBoundIdentity, authenticate-IsBoundIdentity}

abbrev credential : VerifiedCredential
credential = record {
  issuer = "https://iam";
  subject = "anna";
  audience = "gateway" ∷ [];
  scopes = "urban.read" ∷ [];
  credential_id = "jti";
  authentication_context_ref = "ctx";
  tenant_id = "";
}

abbrev binding : TrustBinding
binding = record {
  issuer = "https://iam";
  subject = "anna";
  service_principal_id = "portal";
  actor_type = "HUMAN";
  required_audience = "gateway";
  tenant_id = "trieste";
}

abbrev verify : String → Option VerifiedCredential
verify raw_credential = if raw_credential == "token" then some credential else none

abbrev identity : NormalizedIdentity
identity = record {
  service_principal_id = "portal";
  principal_id = "anna";
  tenant_id = "trieste";
  actor_type = "HUMAN";
  issuer = "https://iam";
  audience = "gateway" ∷ [];
  scopes = "urban.read" ∷ [];
  credential_id = "jti";
  authentication_context_ref = "ctx";
}

token_authenticated : authenticate verify (binding ∷ []) "token" ≡ ok identity
unfolding authenticate normalize binding_of
token_authenticated = refl

authenticate-IsBoundIdentity_example : IsBoundIdentity verify (binding ∷ []) "token" identity
authenticate-IsBoundIdentity_example =
    authenticate-IsBoundIdentity verify (binding ∷ []) "token" identity token_authenticated
