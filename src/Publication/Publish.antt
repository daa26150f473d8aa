-- ===== src/Publication/Publish.antt =====
-- `Publisher._publish`, over any control plane. What it takes from elsewhere: the outcome of
-- governance and compilation, the hash of an artifact, the manifest schema, and the clock.
use ouf_api_gateway.Base.{
  nat_eq, ◌||◌, ℕ, leb, Bool, true, false, not, ◌&&◌, Option, none, some, String, List, [], ◌∷◌,
  ◌++◌, Outcome, ok, raised, Eq, ◌==◌, if◌then◌else◌, all,
}
use mathlib.Core.Option
use Prim.Native.Char.{code}
use Prim.Native.String
use ouf_api_gateway.Base.Dict.{Dict, insert}
use ouf_api_gateway.ControlPlane.{Fault, ControlPlane}
use ouf_api_gateway.ControlPlane.Apisix.{is_true_at}
use ouf_api_gateway.Publication.Manifest.{
  Manifest, compiled, applying, verified, active, failed, rolled_back, PublicationError,
  unsafe_publication_id, immutable_manifest, invalid_manifest, validation_failed, rollback_failed,
  sink_failed, SinkCall, open_incident, resolve_incident, error, critical,
}
use ouf_api_gateway.Publication.Store.{Store, contains_publication, record_publication}

abbrev pub required_checks : List String
required_checks =
    "health" ∷ "routeBinding" ∷ "authorizationNegativePath" ∷ "upstreamReachability" ∷ "convergence"
    ∷ []

-- `all(verification.get(check) is True for check in REQUIRED_CHECKS)`
unfoldable pub all_checked : Dict Bool → Bool
all_checked verification = all (λ check. is_true_at check verification) required_checks

-- The arguments of one publication and what it reads from outside.
pub record Request (Artifact : Type 0) : Type 0 where
  pub environment : String
  pub source_revision : String
  pub publication_id : String
  pub created : String
  pub activated : String
  -- `_validate_repository_governance` and then `compile_config`
  pub compile : Outcome String Artifact
  pub input_hashes : Dict String

-- What a publication may change.
pub record World {Artifact : Type 0} (P : ControlPlane Artifact) : Type 0 where
  pub plane : P.State
  pub store : Store Artifact
  pub sink : List SinkCall

abbrev is_alnum : ℕ → Bool
is_alnum c = (leb b'0' c && leb c b'9') || (leb b'A' c && leb c b'Z') || (leb b'a' c && leb c b'z')

are_id_chars : String → Bool
are_id_chars String.[] = true
are_id_chars (String.◌∷◌ c s) =
    (is_alnum (code c) || (code c == b'.') || (code c == b'_') || (code c == b'-'))
    && are_id_chars s

-- `re.fullmatch(r"[A-Za-z0-9][A-Za-z0-9._-]{0,127}", publication_id)`
unfoldable pub is_safe_id : String → Bool
unfolding are_id_chars
is_safe_id String.[] = false
is_safe_id (String.◌∷◌ c s) = is_alnum (code c) && are_id_chars s && leb (String.count s) 127

-- What a publisher is built with: the hash of an artifact, the schema of manifests, whether there is
-- an incident sink, and whether that returns from a call, behind those that it has had.
pub record Rules (Artifact : Type 0) : Type 0 where
  pub configuration_sha256 : Artifact → String
  pub fits_schema : Manifest → Bool
  pub has_sink : Bool
  pub sink_returns : List SinkCall → SinkCall → Bool

module _ {Artifact : Type 0} ⦃e : Eq Artifact⦄ (P : ControlPlane Artifact)
    (rules : Rules Artifact) where
  open rules use {configuration_sha256, fits_schema, has_sink, sink_returns}

  abbrev pub Result : Type 0
  Result = Outcome PublicationError Manifest × World P

  -- The call on the sink, whose exceptions are not caught, and `return manifest`.
  abbrev pub report : SinkCall → Manifest → World P → Result
  report call manifest w =
      if has_sink
      then (
        if sink_returns w.sink call then ok manifest else raised sink_failed,
        record w { sink = w.sink ++ (call ∷ []) },
      )
      else (ok manifest, w)

  -- `_record`, the call on the sink after it, and `return manifest`.
  unfoldable pub settle : Manifest → Artifact → Bool → SinkCall → World P → Result
  settle manifest artifact activate call w =
      if not (fits_schema manifest)
      then (raised invalid_manifest, w)
      else (let (r, store') = record_publication manifest artifact activate w.store in
          elim r [
            | raised x ↦ (raised x, record w { store = store' })
            | ok done ↦ report call manifest (record w { store = store' })
          ])

  -- `self.plane.rollback(revision)`, whose exceptions are not caught, and then the record.
  unfoldable pub roll_back : String → Manifest → Artifact → SinkCall → World P → Result
  unfolding settle
  roll_back revision manifest artifact call w =
      let (r, plane') = P.rollback revision w.plane in
      elim r [
        | raised x ↦ (raised rollback_failed, record w { plane = plane' })
        | ok done ↦
            settle (record manifest { status = rolled_back }) artifact false call
              (record w { plane = plane' })
      ]

  abbrev pub activated_manifest : Request Artifact → Manifest → Manifest
  activated_manifest q manifest = record manifest {
    status = active;
    activated_at = some q.activated;
  }

  abbrev pub activation_lost : Dict Bool → Manifest → Manifest
  activation_lost verification manifest = record manifest {
    verification = some (insert "activation" false verification);
  }

  abbrev pub failed_at : String → Manifest → Manifest
  failed_at gate manifest = record manifest {
    status = failed;
    verification = some ((gate, false) ∷ []);
  }

  unfoldable pub activate_verified :
      Request Artifact → String → Dict Bool → Manifest → Artifact → World P → Result
  unfolding settle roll_back
  activate_verified q revision verification manifest artifact w =
      let (r, plane') = P.activate revision w.plane in
      elim r [
        | raised x ↦
            roll_back revision (activation_lost verification manifest) artifact
              (open_incident q.publication_id "PUBLICATION_ACTIVATION_FAILED" error)
              (record w { plane = plane' })
        | ok done ↦
            settle (activated_manifest q manifest) artifact true resolve_incident
              (record w { plane = plane' })
      ]

  abbrev pub verification_failed : Dict Bool
  verification_failed = ("verification", false) ∷ []

  abbrev pub or_failed : Outcome Fault (Dict Bool) → Dict Bool
  or_failed (ok verification) = verification
  or_failed (raised x) = verification_failed

  abbrev pub applied : String → Dict Bool → Manifest → Manifest
  applied revision verification manifest = record manifest {
    status = applying;
    control_plane_revision = some revision;
    verification = some verification;
  }

  unfoldable pub verify_staged : Request Artifact → String → Manifest → Artifact → World P → Result
  unfolding all_checked roll_back activate_verified
  verify_staged q revision manifest artifact w =
      let (r, plane') = P.verify revision artifact w.plane in
      let verification = or_failed r in
      let w' : World P = record w { plane = plane' } in
      let manifest' = applied revision verification manifest in
      if not (all_checked verification)
      then roll_back revision manifest' artifact
          (open_incident q.publication_id "PUBLICATION_VERIFICATION_FAILED" error) w'
      else activate_verified q revision verification (record manifest' { status = verified })
          artifact w'

  unfoldable pub stage_compiled : Request Artifact → Manifest → Artifact → World P → Result
  unfolding settle verify_staged
  stage_compiled q manifest artifact w =
      let (r, plane') = P.stage artifact w.plane in
      elim r [
        | raised x ↦
            settle (failed_at "stage" manifest) artifact false
              (open_incident q.publication_id "PUBLICATION_STAGE_FAILED" error)
              (record w { plane = plane' })
        | ok revision ↦ verify_staged q revision manifest artifact (record w { plane = plane' })
      ]

  -- An exception of `healthy` is an unhealthy plane.
  abbrev pub is_healthy : Outcome Fault Bool → Bool
  is_healthy (ok b) = b
  is_healthy (raised x) = false

  unfoldable pub publish_compiled : Request Artifact → Manifest → Artifact → World P → Result
  unfolding settle stage_compiled
  publish_compiled q manifest artifact w =
      let (r, plane') = P.healthy w.plane in
      let w' : World P = record w { plane = plane' } in
      if not (is_healthy r)
      then settle (failed_at "health" manifest) artifact false
          (open_incident q.publication_id "CONTROL_PLANE_UNHEALTHY" critical) w'
      else stage_compiled q manifest artifact w'

  abbrev pub zeros : String
  zeros = "0000000000000000000000000000000000000000000000000000000000000000"

  abbrev pub pre_manifest : Request Artifact → Option Manifest → Manifest
  pre_manifest q previous = record {
    publication_id = q.publication_id;
    environment = q.environment;
    source_revision_ref = q.source_revision;
    artifact_set_hash = zeros;
    status = compiled;
    created_at = q.created;
    activated_at = none;
    verification = none;
    previous_active_publication_id = Option.map (λ (m : Manifest). m.publication_id) previous;
    control_plane_revision = none;
    input_hashes = [];
  }

  abbrev pub compiled_manifest : Request Artifact → Artifact → Option Manifest → Manifest
  compiled_manifest q artifact previous = record (pre_manifest q previous) {
    artifact_set_hash = configuration_sha256 artifact;
    input_hashes = q.input_hashes;
  }

  unfoldable pub publish : Request Artifact → World P → Result
  unfolding publish_compiled
  publish q w =
      let pre = pre_manifest q w.store.active in
      if not (is_safe_id q.publication_id)
      then (raised unsafe_publication_id, w)
      else if contains_publication q.publication_id w.store
      then (raised immutable_manifest, w)
      else if not (fits_schema pre)
      then (raised invalid_manifest, w)
      else elim q.compile [
        | raised why ↦ (raised (validation_failed why), w)
        | ok artifact ↦
            let manifest = compiled_manifest q artifact w.store.active in
            if not (fits_schema manifest)
            then (raised invalid_manifest, w)
            else publish_compiled q manifest artifact w
      ]
