-- ===== src/Boundary/Authorization.antt =====
-- `GatewayAuthorizationBoundary` of tools/authorization_boundary.py.
use ouf_api_gateway.Base.{
  Bool, true, false, ◌||◌, String, Outcome, ok, forbid, require, ◌>>◌, ◌==◌, string_eq,
  if◌then◌else◌, contains,
}
use ouf_api_gateway.Boundary.Identity.{NormalizedIdentity, actor_types}

pub data AuthorizationRejected : Type 0 where
  capability_contract_invalid tenant_missing actor_invalid : AuthorizationRejected

pub data DecisionCode : Type 0 where
  scope_missing allow_coarse : DecisionCode

pub record CoarseAuthorizationDecision : Type 0 where
  pub allowed : Bool
  pub decision_code : DecisionCode
  pub capability_id : String
  pub required_scope : String

unfoldable pub authorize :
    NormalizedIdentity → String → String → Outcome AuthorizationRejected CoarseAuthorizationDecision
authorize identity capability_id required_scope = do
  forbid ((capability_id == "") || (required_scope == "")) capability_contract_invalid
  forbid (identity.tenant_id == "") tenant_missing
  require (contains actor_types identity.actor_type) actor_invalid
  ok (
      if contains identity.scopes required_scope
      then record {
        allowed = true;
        decision_code = allow_coarse;
        capability_id = capability_id;
        required_scope = required_scope;
      }
      else record {
        allowed = false;
        decision_code = scope_missing;
        capability_id = capability_id;
        required_scope = required_scope;
      })
