-- ===== src/Publication/Manifest.antt =====
-- The publication manifest (`pre_manifest` and its updates in tools/publication.py), the errors
-- of a publication and the incidents that it reports.
use ouf_api_gateway.Base.{Bool, Option, String}
use ouf_api_gateway.Base.Dict.{Dict}

pub data Status : Type 0 where
  compiled applying verified active failed rolled_back : Status

pub record Manifest : Type 0 where
  pub publication_id : String
  pub environment : String
  pub source_revision_ref : String
  pub artifact_set_hash : String
  pub status : Status
  pub created_at : String
  pub activated_at : Option String
  pub verification : Option (Dict Bool)
  pub previous_active_publication_id : Option String
  pub control_plane_revision : Option String
  pub input_hashes : Dict String

pub data PublicationError : Type 0 where
  unsafe_publication_id immutable_manifest hash_collision invalid_manifest : PublicationError
  environment_not_governed reference_missing : PublicationError
  unknown_setting setting_out_of_bounds : String → PublicationError
  unknown_generations_admitted : PublicationError
  activation_rejected : String → PublicationError
  validation_failed : String → PublicationError
  batch_size_invalid batch_capacity : PublicationError
  -- an exception of the plane's `rollback` or of the incident sink, which no handler catches
  rollback_failed sink_failed : PublicationError

pub data Severity : Type 0 where
  info warning error critical : Severity

-- The calls on the incident sink, all under the key `gateway:publication:blocked`.
pub data SinkCall : Type 0 where
  open_incident : String → String → Severity → SinkCall
  resolve_incident : SinkCall
