-- ===== src/ControlPlane.antt =====
-- tools/publication.py (`ControlPlane`) and tools/apisix_control_plane.py: the plane that a
-- publication is staged on, and the adapter that implements it over the APISIX Admin API.
pub mod Apisix
use ouf_api_gateway.Base.{Bool, String, Outcome}
use ouf_api_gateway.Base.Dict.{Dict}

-- Any exception of a call.
pub data Fault : Type 0 where
  fault : String → Fault

-- A call on a remote state may return or raise, and may leave another state either way.
abbrev pub Call : Type 0 → Type 0 → Type 0
Call S A = S → Outcome Fault A × S

-- The protocol `ControlPlane`, over the artifacts of the compiler.
pub record ControlPlane (Artifact : Type 0) : Type 1 where
  pub State : Type 0
  pub healthy : Call State Bool
  pub stage : Artifact → Call State String
  pub verify : String → Artifact → Call State (Dict Bool)
  pub activate : String → Call State (Unit {0})
  pub rollback : String → Call State (Unit {0})
