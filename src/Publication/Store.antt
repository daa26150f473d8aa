-- ===== src/Publication/Store.antt =====
-- `FilePublicationStore`: the files under `manifests/` and `artifacts/`, and `active.json`. A
-- write is one `os.replace`; the lock of `exclusive` makes each publication one step.
use ouf_api_gateway.Base.{
  Bool, true, false, Option, none, some, String, Outcome, ok, raised, Eq, ◌≠◌, if◌then◌else◌,
}
use ouf_api_gateway.Base.Dict.{Dict, lookup, insert}
use ouf_api_gateway.Publication.Manifest.{
  Manifest, PublicationError, immutable_manifest, hash_collision,
}

pub record Store (Artifact : Type 0) : Type 0 where
  pub manifests : Dict Manifest
  pub artifacts : Dict Artifact
  pub active : Option Manifest

abbrev pub is_there {ℓ} : {V : Type ℓ} → Option V → Bool
is_there none = false
is_there (some v) = true

module _ {Artifact : Type 0} ⦃e : Eq Artifact⦄ where
  unfoldable pub contains_publication : String → Store Artifact → Bool
  contains_publication publication_id store = is_there (lookup publication_id store.manifests)

  -- The two files are written, the artifact only where it is new.
  unfoldable pub write_files : Manifest → Artifact → Bool → Store Artifact → Store Artifact
  write_files manifest artifact activate store = record {
    manifests = insert manifest.publication_id manifest store.manifests;
    artifacts =
        if is_there (lookup manifest.artifact_set_hash store.artifacts)
        then store.artifacts
        else insert manifest.artifact_set_hash artifact store.artifacts;
    active = if activate then some manifest else store.active;
  }

  unfoldable pub record_publication :
      Manifest
      → Artifact
      → Bool
      → Store Artifact
      → Outcome PublicationError (Unit {0}) × Store Artifact
  unfolding contains_publication write_files
  record_publication manifest artifact activate store =
      if contains_publication manifest.publication_id store
      then (raised immutable_manifest, store)
      else elim (lookup manifest.artifact_set_hash store.artifacts) [
        | none ↦ (ok tt, write_files manifest artifact activate store)
        | some old ↦
            if old ≠ artifact
            then (raised hash_collision, store)
            else (ok tt, write_files manifest artifact activate store)
      ]
