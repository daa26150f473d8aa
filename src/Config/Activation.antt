-- ===== src/Config/Activation.antt =====
-- tools/activation_gate.py: what a route needs before a publication may activate it.
use Prim.Native.Char.{code}
use Prim.Native.String
use text.Mathlib.Text.{starts_with}
use ouf_api_gateway.Base.{
  Bool, true, false, not, ◌&&◌, Option, none, some, String, Outcome, ok, raised, forbid, ◌>>◌,
  ◌>>=◌, ◌==◌, ◌≠◌, string_eq, nat_eq, if◌then◌else◌,
}
use ouf_api_gateway.Config.Documents.{
  Capability, SourceRuntimeProfile, ExtractionRuntimeProfile, RouteBinding, ref,
}

pub data ActivationRejected : Type 0 where
  capability_reference_mismatch source_runtime_reference_mismatch : ActivationRejected
  extraction_reference_mismatch extraction_source_mismatch : ActivationRejected
  backend_source_binding_mismatch authorization_binding_missing : ActivationRejected

pub record ActivationEvidence : Type 0 where
  pub capability_ref : String
  pub source_ref : String
  pub extraction_ref : Option String
  pub backend_service : String
  pub authorization_checked : Bool

-- `s.split("/", 1)[0]`
unfoldable pub before_slash : String → String
before_slash String.[] = ""
before_slash (String.◌∷◌ c s) =
    let rest = before_slash s in if code c == b'/' then "" else String.◌∷◌ c rest

-- `s.removeprefix(p)`
unfoldable pub remove_prefix : String → String → String
remove_prefix p s = if starts_with s p then String.slice s (String.len p) (String.len s) else s

-- The endpoint is a service other than the backend.
unfoldable pub is_other_service : String → String → Bool
unfolding before_slash remove_prefix
is_other_service endpoint_ref backend =
    starts_with endpoint_ref "service://"
    && (before_slash (remove_prefix "service://" endpoint_ref) ≠ backend)

-- The extraction profile is looked at only where the route names one.
unfoldable pub check_extraction :
    String → Option String → Option ExtractionRuntimeProfile → Outcome ActivationRejected (Unit {0})
check_extraction source_ref none profile = ok tt
check_extraction source_ref (some extraction_ref) profile =
    if extraction_ref == "" then ok tt else elim profile [
      | none ↦ raised extraction_reference_mismatch
      | some e ↦
          if ref e.metadata ≠ extraction_ref
          then raised extraction_reference_mismatch
          else if e.source_ref ≠ source_ref
          then raised extraction_source_mismatch
          else ok tt
    ]

-- `authorization` is the gate's `binding_exists`, where there is a gate.
unfoldable pub check_authorization :
    Option (String → String → Bool) → String → String → Outcome ActivationRejected Bool
check_authorization none capability_ref scope = ok false
check_authorization (some binding_exists) capability_ref scope =
    if not (binding_exists capability_ref scope)
    then raised authorization_binding_missing
    else ok true

unfoldable pub validate_route_activation :
    RouteBinding
    → Capability
    → SourceRuntimeProfile
    → Option ExtractionRuntimeProfile
    → Option (String → String → Bool)
    → Outcome ActivationRejected ActivationEvidence
unfolding check_extraction is_other_service check_authorization ref
validate_route_activation route capability source extraction authorization = do
  forbid (ref capability.metadata ≠ route.capability_ref) capability_reference_mismatch
  forbid (ref source.metadata ≠ route.source_ref) source_runtime_reference_mismatch
  check_extraction route.source_ref route.extraction_profile_ref extraction
  forbid (is_other_service source.endpoint_ref route.backend.service)
      backend_source_binding_mismatch
  checked ← check_authorization authorization route.capability_ref capability.scope
  ok (record {
    capability_ref = route.capability_ref;
    source_ref = route.source_ref;
    extraction_ref = route.extraction_profile_ref;
    backend_service = route.backend.service;
    authorization_checked = checked;
  })
