-- ===== src/ControlPlane/Apisix.antt =====
-- `APISIXControlPlane`. The Admin API is the port `AdminPort`; nothing is assumed of it.
use Prim.Native.String
use ouf_api_gateway.Base.{
  Bool, true, false, Option, some, none, String, [], ◌∷◌, ok, raised, Eq, ◌==◌, ◌≠◌, string_eq,
  option_eq, if◌then◌else◌,
}
use ouf_api_gateway.Base.Dict.{Dict, lookup}
use ouf_api_gateway.ControlPlane.{Fault, fault, Call, ControlPlane}

pub record AdminPort (Artifact : Type 0) : Type 1 where
  pub State : Type 0
  pub health : Call State Bool
  pub put_revision : String → Artifact → Call State (Unit {0})
  pub read_revision : String → Call State Artifact
  pub probe_revision : String → Call State (Dict Bool)
  pub activate_revision : String → Call State (Unit {0})
  pub active_revision : Call State (Option String)
  pub delete_revision : String → Call State (Unit {0})

infixl 5 ◌>>=◌
abbrev ◌>>=◌ : {S A B : Type 0} → Call S A → (A → Call S B) → Call S B
◌>>=◌ m f s = let (r, s') = m s in elim r [ ok a ↦ f a s' | raised e ↦ (raised e, s') ]

abbrev pure : {S A : Type 0} → A → Call S A
pure a s = (ok a, s)

abbrev fail : {S A : Type 0} → Fault → Call S A
fail e s = (raised e, s)

-- `checks.get(name) is True`
unfoldable pub is_true_at : String → Dict Bool → Bool
unfolding lookup
is_true_at name checks = elim (lookup name checks) [ none ↦ false | some b ↦ b ]

-- `canonical` is the sha256 of an artifact's canonical JSON.
module _ {Artifact : Type 0} ⦃e : Eq Artifact⦄ (canonical : Artifact → String) where
  unfoldable pub revision_for : Artifact → String
  revision_for artifact = String.◌++◌ "sha256:" (canonical artifact)

  module _ (admin : AdminPort Artifact) where
    -- A failing health call is an unhealthy plane.
    unfoldable pub healthy : Call admin.State Bool
    healthy s =
        let (r, s') = admin.health s in elim r [ ok b ↦ (ok b, s') | raised e ↦ (ok false, s') ]

    unfoldable pub stage : Artifact → Call admin.State String
    stage artifact = do
      let revision = revision_for artifact
      done ← admin.put_revision revision artifact
      written ← admin.read_revision revision
      if written ≠ artifact
          then fail (fault "APISIX staged revision failed read-after-write verification")
          else pure revision

    abbrev integrity_lost : Dict Bool
    integrity_lost = ("artifactIntegrity", false) ∷ []

    unfoldable pub verify : String → Artifact → Call admin.State (Dict Bool)
    unfolding is_true_at
    verify revision artifact = if revision ≠ revision_for artifact then pure integrity_lost else do
      written ← admin.read_revision revision
      if written ≠ artifact then pure integrity_lost else do
        checks ← admin.probe_revision revision
        pure (
            ("health", is_true_at "health" checks)
            ∷ ("routeBinding", is_true_at "routeBinding" checks)
            ∷ ("authorizationNegativePath", is_true_at "authorizationNegativePath" checks)
            ∷ ("upstreamReachability", is_true_at "upstreamReachability" checks)
            ∷ ("convergence", is_true_at "convergence" checks)
            ∷ ("artifactIntegrity", true)
            ∷ [])

    unfoldable pub activate : String → Call admin.State (Unit {0})
    activate revision = do
      done ← admin.activate_revision revision
      active ← admin.active_revision
      if active ≠ some revision
          then fail (fault "APISIX activation did not converge to staged revision")
          else pure tt

    -- The active revision is never deleted.
    unfoldable pub rollback : String → Call admin.State (Unit {0})
    rollback revision = do
      active ← admin.active_revision
      if active == some revision
          then fail (fault "refusing to delete active APISIX revision")
          else admin.delete_revision revision

    -- The adapter is a control plane.
    abbrev pub apisix_control_plane : ControlPlane Artifact
    apisix_control_plane = record {
      State = admin.State;
      healthy = healthy;
      stage = stage;
      verify = verify;
      activate = activate;
      rollback = rollback;
    }
