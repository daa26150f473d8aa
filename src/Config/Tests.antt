-- ===== src/Config/Tests.antt =====
-- Concrete documents for tools/compile_config.py and tools/activation_gate.py.
use ouf_api_gateway.Base.{
  arith, ◌≡◌, ◌≢◌, ◌↔◌, ◌&&◌, refl, Bool, true, false, Option, none, some, String, List, [], ◌∷◌,
  ap, arith, sym, ◌==◌, string_eq, ok,
}
use ouf_api_gateway.Config.Documents.{
  Capability, SourceRuntimeProfile, RouteBinding, Document, capability, source, route,
  find_capability, find_source, kind_of, metadata_of, ref,
}
use ouf_api_gateway.Config.Compile.{
  CompiledRoute, compiled_route, check_index, same_kind, check_extractions, is_governed_scheme,
  is_taken, is_wildcard, is_exact_wildcard, is_regex_accepted, claim, has_duplicate, is_anchored,
  is_there,
}
use ouf_api_gateway.Base.Text.{count_code, ends_with, drop_last, insert_sorted, sort_by}
use mathlib.Core.Option.{or_else}
use ouf_api_gateway.Config.Routes.{
  compile_config, add_routes, add_route, add_endpoints, add_mediations, is_extraction_resolved,
  resolve,
}
use ouf_api_gateway.Config.Disjoint.{AllDisjoint}
use ouf_api_gateway.Config.Disjoint.Output.{compile_config-AllDisjoint}
use ouf_api_gateway.Config.Activation.{ActivationEvidence, validate_route_activation}
use ouf_api_gateway.Config.Gate.{IsActivatable, validate_route_activation-IsActivatable}

abbrev search : Capability
search = record {
  metadata = record { id = "urban.search"; version = "1" };
  scope = "urban.read";
  owner = "urban";
  operation_type = "READ";
  tool_eligible = true;
  human_required = false;
}

abbrev urban : SourceRuntimeProfile
urban = record {
  metadata = record { id = "urban"; version = "1" };
  endpoint_ref = "service://urban-api/objects";
  owner_outcome_path = none;
}

abbrev object_route : String → Option String → RouteBinding
object_route id regex = record {
  metadata = record { id = id; version = "1" };
  capability_ref = "urban.search@1";
  source_ref = "urban@1";
  extraction_profile_ref = none;
  exposure = "internal";
  method = "GET";
  path = "/v1/objects/*";
  uri_regex = regex;
  backend = record { service = "urban-api"; port = 8080; path = "/v1/objects/*" };
  identity = "M2M";
  allowed_service_identities = "mcp" ∷ [];
  allowed_actor_types = [];
  max_request_bytes = 4096;
  timeout_seconds = 5;
}

abbrev by_number : RouteBinding
by_number = object_route "r2" (some "^/v1/objects/[0-9]+$")

abbrev by_name : RouteBinding
by_name = object_route "r1" (some "^/v1/objects/[a-z]+$")

abbrev documents : List Document
documents = capability search ∷ source urban ∷ route by_number ∷ route by_name ∷ []

abbrev compiled : List CompiledRoute
compiled = compiled_route by_name search urban ∷ compiled_route by_number search urban ∷ []

documents_compiled : compile_config documents ≡ ok compiled
unfolding compile_config check_index same_kind check_extractions add_routes add_route
    find_capability or_else find_source is_governed_scheme is_taken is_wildcard count_code
    is_exact_wildcard ends_with is_regex_accepted drop_last claim insert_sorted sort_by
    compiled_route has_duplicate is_anchored is_there kind_of metadata_of ref add_endpoints
    add_mediations is_extraction_resolved resolve
documents_compiled = refl

is_empty_regex : Option String → Bool
is_empty_regex none = false
is_empty_regex (some x) = x == ""

distinct : true ≢ false
distinct e = absurd (ground arith)

by_number_regex : by_number.uri_regex ≢ some ""
unfolding is_empty_regex
by_number_regex e = distinct (ap is_empty_regex (sym e))

by_name_regex : by_name.uri_regex ≢ some ""
unfolding is_empty_regex
by_name_regex e = distinct (ap is_empty_regex (sym e))

compile_config-AllDisjoint_example : AllDisjoint compiled
compile_config-AllDisjoint_example =
    compile_config-AllDisjoint documents compiled (tt, (tt, (by_number_regex, (by_name_regex, tt))))
      documents_compiled

abbrev holds_binding : String → String → Bool
holds_binding capability_ref scope = (capability_ref == "urban.search@1") && (scope == "urban.read")

validate_route_activation-IsActivatable_example :
    ((e : ActivationEvidence) × (validate_route_activation by_number search urban none
          (some holds_binding)
        ≡ ok e))
    ↔ IsActivatable by_number search urban none (some holds_binding)
validate_route_activation-IsActivatable_example =
    validate_route_activation-IsActivatable by_number search urban none (some holds_binding)
