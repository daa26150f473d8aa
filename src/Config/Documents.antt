-- ===== src/Config/Documents.antt =====
-- The documents of tools/compile_config.py after their schemas have accepted them, by kind.
-- A field that only passes through is kept at the type that the schema gives it.
use Prim.Native.String
use mathlib.Core.Option.{or_else}
use ouf_api_gateway.Base.{
  ℕ, Bool, Option, none, some, String, List, [], ◌∷◌, ◌==◌, string_eq, if◌then◌else◌,
}

pub record Metadata : Type 0 where
  pub id : String
  pub version : String

-- `ref(doc)`
unfoldable pub ref : Metadata → String
ref m = String.◌++◌ m.id (String.◌++◌ "@" m.version)

pub record Capability : Type 0 where
  pub metadata : Metadata
  pub scope : String
  pub owner : String
  pub operation_type : String
  pub tool_eligible : Bool
  pub human_required : Bool

pub record SourceRuntimeProfile : Type 0 where
  pub metadata : Metadata
  pub endpoint_ref : String
  pub owner_outcome_path : Option String

pub record ExtractionRuntimeProfile : Type 0 where
  pub metadata : Metadata
  pub source_ref : String

pub record BackendBinding : Type 0 where
  pub service : String
  pub port : ℕ
  pub path : String

pub record RouteBinding : Type 0 where
  pub metadata : Metadata
  pub capability_ref : String
  pub source_ref : String
  pub extraction_profile_ref : Option String
  pub exposure : String
  pub method : String
  pub path : String
  pub uri_regex : Option String
  pub backend : BackendBinding
  pub identity : String
  pub allowed_service_identities : List String
  pub allowed_actor_types : List String
  pub max_request_bytes : ℕ
  pub timeout_seconds : ℕ

pub record McpEndpointBinding : Type 0 where
  pub metadata : Metadata
  pub source_ref : String
  pub exposure : String
  pub method : String
  pub path : String
  pub backend : BackendBinding
  pub strip_client_headers : List String
  pub claim_projection : List String
  pub identity : String
  pub required_audience : String
  pub required_scope : String
  pub allowed_actor_types : List String
  pub max_request_bytes : ℕ
  pub timeout_seconds : ℕ

pub record McpMediationBinding : Type 0 where
  pub metadata : Metadata
  pub mode : String
  pub service_identity_ref : String
  pub method : String
  pub path : String
  pub identity : String
  pub required_scope : Option String
  pub max_request_bytes : ℕ
  pub timeout_seconds : ℕ

pub data Document : Type 0 where
  capability : Capability → Document
  source : SourceRuntimeProfile → Document
  extraction : ExtractionRuntimeProfile → Document
  route : RouteBinding → Document
  mcp_endpoint : McpEndpointBinding → Document
  mcp_mediation : McpMediationBinding → Document

pub data Kind : Type 0 where
  capability_kind source_kind extraction_kind route_kind endpoint_kind mediation_kind : Kind

unfoldable pub kind_of : Document → Kind
kind_of (capability d) = capability_kind
kind_of (source d) = source_kind
kind_of (extraction d) = extraction_kind
kind_of (route d) = route_kind
kind_of (mcp_endpoint d) = endpoint_kind
kind_of (mcp_mediation d) = mediation_kind

unfoldable pub metadata_of : Document → Metadata
metadata_of (capability d) = d.metadata
metadata_of (source d) = d.metadata
metadata_of (extraction d) = d.metadata
metadata_of (route d) = d.metadata
metadata_of (mcp_endpoint d) = d.metadata
metadata_of (mcp_mediation d) = d.metadata

-- `indexed.get((kind, ref))` of a dict built in document order: the last document of the kind
-- with that reference.
unfoldable pub find_capability : String → List Document → Option Capability
unfolding ref
find_capability r [] = none
find_capability r (capability d ∷ docs) =
    let here = if ref d.metadata == r then some d else none in or_else (find_capability r docs) here
find_capability r (_ ∷ docs) = find_capability r docs

unfoldable pub find_source : String → List Document → Option SourceRuntimeProfile
unfolding ref
find_source r [] = none
find_source r (source d ∷ docs) =
    let here = if ref d.metadata == r then some d else none in or_else (find_source r docs) here
find_source r (_ ∷ docs) = find_source r docs

unfoldable pub find_extraction : String → List Document → Option ExtractionRuntimeProfile
unfolding ref
find_extraction r [] = none
find_extraction r (extraction d ∷ docs) =
    let here = if ref d.metadata == r then some d else none in or_else (find_extraction r docs) here
find_extraction r (_ ∷ docs) = find_extraction r docs
