-- ===== src/Publication/Tests.antt =====
-- Publications over an Admin API in memory. An artifact is a text, and is its own hash.
use ouf_api_gateway.Base.{
  Bool, true, false, Option, none, some, String, [], ◌∷◌, ◌≡◌, Outcome, ok, raised, refl, string_eq,
}
use ouf_api_gateway.Base.Dict.{Dict, lookup, insert}
use ouf_api_gateway.ControlPlane.{Fault, fault}
use mathlib.Core.Option.{none-ne-some}
use ouf_api_gateway.ControlPlane.Apisix
use ouf_api_gateway.ControlPlane.Apisix.{AdminPort, apisix_control_plane}
use ouf_api_gateway.Publication.Store.{record_publication, contains_publication}
use ouf_api_gateway.Publication.Manifest.{rollback_failed, sink_failed, resolve_incident}
use ouf_api_gateway.Publication.LastKnownGood.{
  Preserves, publish-Preserves, ActiveIsRecorded, publish-ActiveIsRecorded,
}
use ouf_api_gateway.ControlPlane.{ControlPlane}
use ouf_api_gateway.Publication.Publish.{is_safe_id, all_checked, World, Request, Rules, publish}

abbrev Admin : Type 0
Admin = record { revisions : Dict String; active : Option String; reachable : Bool }

abbrev or_missing : Option String → Outcome Fault String
or_missing none = raised (fault "missing")
or_missing (some artifact) = ok artifact

abbrev memory : AdminPort String
memory = record {
  State = Admin;
  health = λ s. (ok true, s);
  put_revision = λ revision artifact s. (
    ok tt,
    record {
      revisions = insert revision artifact s.revisions;
      active = s.active;
      reachable = s.reachable;
    },
  );
  read_revision = λ revision s. (or_missing (lookup revision s.revisions), s);
  probe_revision = λ revision s. (
    ok (
        ("health", true)
        ∷ ("routeBinding", true)
        ∷ ("authorizationNegativePath", true)
        ∷ ("upstreamReachability", s.reachable)
        ∷ ("convergence", true)
        ∷ []),
    s,
  );
  activate_revision = λ revision s.
      (ok tt, record { revisions = s.revisions; active = some revision; reachable = s.reachable });
  active_revision = λ s. (ok s.active, s);
  delete_revision = λ revision s. (ok tt, s);
}

abbrev plane : ControlPlane String
plane = apisix_control_plane (λ artifact. artifact) memory

abbrev rules : Rules String
rules = record {
  configuration_sha256 = λ artifact. artifact;
  fits_schema = λ m. true;
  has_sink = true;
  sink_returns = λ calls call. true;
}

abbrev request : String → Request String
request id = record {
  environment = "prod";
  source_revision = "git:1";
  publication_id = id;
  created = "2026-01-01T00:00:00Z";
  activated = "2026-01-01T00:00:05Z";
  compile = ok "routes";
  input_hashes = [];
}

abbrev start : World plane
start = record {
  plane = record { revisions = []; active = none; reachable = true };
  store = record { manifests = []; artifacts = []; active = none };
  sink = [];
}

-- What a run by evaluation sees through.
runs : Bool
unfolding publish is_safe_id record_publication all_checked contains_publication lookup insert
    Apisix.revision_for Apisix.healthy Apisix.stage Apisix.verify Apisix.activate Apisix.rollback
runs = true

first_is_active : (publish plane rules (request "p1") start).1.plane.active ≡ some "sha256:routes"
unfolding runs
first_is_active = refl

-- The first publication, and the upstream gone since.
abbrev published : World plane
published = record {
  plane = record {
    revisions = ("sha256:routes", "routes") ∷ [];
    active = some "sha256:routes";
    reachable = false;
  };
  store = (publish plane rules (request "p1") start).1.store;
  sink = resolve_incident ∷ [];
}

publish-Preserves_example :
    let (r, w') = publish plane rules (request "p2") published in
    Preserves published.store r w'.store
publish-Preserves_example = publish-Preserves plane rules (request "p2") published

start-ActiveIsRecorded : ActiveIsRecorded plane rules start.store
start-ActiveIsRecorded = record { at = λ m e. absurd (none-ne-some m e) }

publish-ActiveIsRecorded_example :
    ActiveIsRecorded plane rules (publish plane rules (request "p1") start).1.store
publish-ActiveIsRecorded_example =
    publish-ActiveIsRecorded plane rules (request "p1") start start-ActiveIsRecorded

-- The same configuration again, under another id: its revision is the active one, whose removal the
-- adapter refuses.
again_raises : (publish plane rules (request "p2") published).0 ≡ raised rollback_failed
unfolding runs
again_raises = refl

-- A sink that raises behind the record: the manifest is active, and nothing is returned.
abbrev refusing : Rules String
refusing = record rules { sink_returns = λ calls call. false }

sink_raises :
    ((publish plane refusing (request "p1") start).0 ≡ raised sink_failed)
    × ((publish plane refusing (request "p1") start).1.store ≡ published.store)
unfolding runs
sink_raises = (refl, refl)
