-- ===== src/Rollout/Returns.antt =====
-- When the rollback of ops/apisix/rollout_r4a_runtime.py goes through.
use ouf_api_gateway.Base.{Bool, true, Option, String, nat_eq, string_eq, ◌≡◌}
use ouf_api_gateway.Rollout.{Docker}
use ouf_api_gateway.Rollout.Held.{IsDocker}
use ouf_api_gateway.Rollout.Working.{IsWorking}
use ouf_api_gateway.Rollout.Recovered.{IsBack}

module _ {W : Type 0} (docker : Docker W) {named : W → String → Option String}
    {alive : W → String → Bool} (laws : IsDocker docker named)
    (working : IsWorking docker named alive) (name backup old_id : String) where
  abbrev IsUp : W → Type 0
  IsUp w = (IsBack docker laws working name backup old_id) w × (alive w name ≡ true)
