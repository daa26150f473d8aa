-- ===== src/Rollout/Ordered.antt =====
-- The order of rollbacks in `main` of ops/apisix/rollout_r4a_runtime.py.
use ouf_api_gateway.Base.{
  true, false, Option, none, some, String, ◌==◌, string_eq, ◌≡◌, refl, sym, ◌∙◌, arith, eq_iff,
}
use ouf_api_gateway.Rollout.{
  RolloutState, RolloutError, Docker, Call, rollback, rollback_command, require_apisix_back,
}
use ouf_api_gateway.Rollout.Held.{
  IsDocker, Ends, Leads, Leads-bind, Follows, check-Leads, inspect-Leads,
}
use ouf_api_gateway.Rollout.Restored.{Leads-imply, seen-Follows}

from_nothing :
    {W A : Type 0} {Q : A → W → Type 0} {R : RolloutError → W → Type 0} (m : Call W A)
    → Leads (λ (_ : W). ⊥) m Q R
from_nothing m = record { at = λ w p. absurd p }

module _ {W : Type 0} (docker : Docker W) {named : W → String → Option String}
    (laws : IsDocker docker named) (before : W) where
  -- Every name names what it named before.
  abbrev pub IsUnchanged : W → Type 0
  IsUnchanged w = (j : String) → named w j ≡ named before j

  IsUnchanged-Follows : Follows docker laws IsUnchanged
  IsUnchanged-Follows = record { along = λ w w' same p j. same j ∙ p j }

  differs :
      (id old_id : String) (c : Option String)
      → c ≡ some id
      → (id == old_id) ≡ false
      → (found : String) → c ≡ some found
      → (found == old_id) ≡ true
      → ⊥
  differs id old_id none q other found seen same = ground arith
  differs id old_id (some x) q other found seen same =
      let e = (eq_iff found old_id).0 same in ground (arith, q, seen, e, other, eq_iff id old_id)

  require_apisix_back-Leads :
      (api_state : RolloutState) (id : String)
      → named before "ouf-apisix" ≡ some id
      → (id == api_state.old_id) ≡ false
      → Leads IsUnchanged
          (require_apisix_back docker "udp" (some api_state))
          (λ _ _. ⊥)
          (λ _. IsUnchanged)
  unfolding require_apisix_back
  require_apisix_back-Leads api_state id here other =
      Leads-bind
        (Leads-imply (λ w p. p) (λ a w q. q) (λ e w r. r.0)
          (inspect-Leads docker laws IsUnchanged IsUnchanged-Follows "ouf-apisix"))
        (λ apisix.
          Leads-imply (λ w p. p)
            (λ a w q.
              differs id api_state.old_id _ here other apisix.id (sym (q.0.0 "ouf-apisix") ∙ q.0.1)
                q.1)
            (λ e w r. r.0.0)
            (check-Leads docker laws _
              (seen-Follows docker laws "ouf-apisix" "" "" IsUnchanged "ouf-apisix" apisix.id
                IsUnchanged-Follows)
              (apisix.id == api_state.old_id) "rollback APISIX before UDP" refl))

  -- UDP is not rolled back before APISIX: while APISIX's name names another container than the
  -- original of its own staging, a rollback of UDP raises and changes no name.
  pub rollback_command-IsOrdered :
      (state api_state : RolloutState) (id : String)
      → named before "ouf-apisix" ≡ some id
      → (id == api_state.old_id) ≡ false
      → Ends
          (λ (_ : Unit {0}) _. ⊥)
          (λ _. IsUnchanged)
          (rollback_command docker "udp" state (some api_state) before)
  unfolding rollback_command
  rollback_command-IsOrdered state api_state id here other =
      let ordered =
        Leads-bind
          (Leads-imply (λ w p. p) (λ a w q. q.0) (λ e w r. r.0)
            (check-Leads docker laws IsUnchanged IsUnchanged-Follows (state.service == "udp")
              "rollback state differs from service" refl))
          (λ _.
            Leads-bind (require_apisix_back-Leads api_state id here other)
              (λ _. from_nothing (rollback docker "udp" state))) in
      ordered.at before (λ j. refl)
