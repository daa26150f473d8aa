-- ===== src/Deploy/Status.antt =====
-- ops/apisix/deploy_status_execute.py: `apply_routes`, which restores the ids that it attempted,
-- the last one first. Its `Admin` is the one of the other scripts, with `check_public` behind it.
pub mod Read
pub mod Tracked
pub mod Atomic
use ouf_api_gateway.Base.{
  ℕ, Bool, true, false, ◌||◌, Option, none, some, String, List, [], ◌∷◌, ◌==◌, nat_eq, Outcome, ok,
  raised, if◌then◌else◌, ◌++◌,
}
use ouf_api_gateway.Base.Dict.{Dict, insert, lookup}
use ouf_api_gateway.Document.{Value, null, object, text, truthy, or_null}
use ouf_api_gateway.Deploy.{
  Method, get, put, delete, Reply, Admin, Call, ◌>>=◌, lift, check, DeployError, runtime_error,
  rollback_incomplete,
}
use ouf_api_gateway.Deploy.Routes.{
  send, probe, save, text_at, snapshot_one, written_as, restore_each, reported, after_failure,
}

module _ {W : Type 0} (admin : Admin W) where
  -- The first loop, with what it has read so far.
  unfoldable pub read_previous : List Value → Dict Value → Call W (Dict Value)
  unfolding insert
  read_previous [] previous = lift (ok previous)
  read_previous (route ∷ routes) previous = do
    id ← lift (text_at "id" route)
    old ← snapshot_one admin id
    read_previous routes (insert id old previous)

  -- A call of the body of `try`, and the rest of it; the ids attempted so far stay.
  abbrev pub stopped :
      List String
      → Outcome DeployError (Unit {0}) × W
      → (W → List String × (Outcome DeployError (Unit {0}) × W))
      → List String × (Outcome DeployError (Unit {0}) × W)
  stopped attempted (ok _, w) k = k w
  stopped attempted (raised e, w) k = (attempted, (raised e, w))

  abbrev pub for_id :
      List String
      → Outcome DeployError String
      → W
      → (String → List String × (Outcome DeployError (Unit {0}) × W))
      → List String × (Outcome DeployError (Unit {0}) × W)
  for_id attempted (ok id) w k = k id
  for_id attempted (raised e) w k = (attempted, (raised e, w))

  -- What is restored: `previous[route_id]` for each attempted id.
  unfoldable pub entries : Dict Value → List String → Dict Value
  unfolding lookup
  entries previous [] = []
  entries previous (id ∷ ids) = (id, or_null (lookup id previous)) ∷ entries previous ids

  -- `except BaseException`: the rollback's own failures go before the first exception.
  abbrev pub or_roll_back :
      Dict Value
      → List String × (Outcome DeployError (Unit {0}) × W)
      → Outcome DeployError (Unit {0}) × W
  or_roll_back previous (attempted, (ok _, w)) = (ok tt, w)
  or_roll_back previous (attempted, (raised e, w)) =
      after_failure admin e (reported admin (restore_each admin (entries previous attempted) w))

  -- `check_public`, with the body of its schema-valid probe.
  module _ (execute_probe : Value) where
    unfoldable pub check_public : Call W (Unit {0})
    check_public = do
      mcp ← probe admin "/mcp" "POST" (object [])
      refused ← check (mcp == 401) (runtime_error "unauthenticated MCP HTTP")
      metadata ← probe admin "/.well-known/oauth-protected-resource" "GET" null
      served ← check (metadata == 200) (runtime_error "metadata HTTP")
      execute ← probe admin "/internal/capabilities/v1/execute" "POST" execute_probe
      check (execute == 401) (runtime_error "unauthenticated execute HTTP")

    -- The body of `try`, with the ids attempted so far, the last one first: each id is noted
    -- before its first call.
    unfoldable pub attempt :
        List Value → List String → W → List String × (Outcome DeployError (Unit {0}) × W)
    unfolding check_public
    attempt [] attempted w = (attempted, check_public w)
    attempt (route ∷ routes) attempted w = for_id attempted (text_at "id" route) w λ id.
        stopped (id ∷ attempted) (written_as admin route id w) (attempt routes (id ∷ attempted))

    unfoldable pub attempt_all : Dict Value → List Value → Call W (Unit {0})
    unfolding attempt entries
    attempt_all previous routes w = or_roll_back previous (attempt routes [] w)

    -- `apply_routes(routes, request)`
    unfoldable pub apply_routes : List Value → Call W (Unit {0})
    unfolding attempt_all read_previous
    apply_routes routes = do
      previous ← read_previous routes []
      saved ← save admin previous
      attempt_all previous routes
