-- ===== src/Rollout/Staged.antt =====
-- `rollback` and the staging of `main` in ops/apisix/rollout_r4a_runtime.py as a whole.
use ouf_api_gateway.Base.{
  false, ◌&&◌, Option, none, some, String, List, ◌==◌, string_eq, Outcome, ok, raised, ◌≡◌, refl,
  ◌⊎◌, inl, inr,
}
use ouf_api_gateway.Rollout.{
  Container, RolloutState, RolloutError, called_process_error, os_error, value_error, Docker,
  rollback, container_name, start_candidate, after_rollback, or_rollback, try_candidate, stage,
  is_missing,
}
use ouf_api_gateway.Rollout.Held.{
  IsDocker, Ends, Leads, Leads-bind, IsNamed, IsHeld, Lost, IsSeen, Follows, IsNamed-Follows,
  check-Leads, command-Leads, save-Leads, pause-Leads, inspect-Leads, look-Leads, wait_if_udp-Leads,
  connect_if_apisix-Leads,
}
use ouf_api_gateway.Rollout.Restored.{
  Leads-imply, back-IsLost, kept-IsLost, create-Leads, rename-Leads, rollback_named-Leads,
}

module _ {W : Type 0} (docker : Docker W) {named : W → String → Option String}
    (laws : IsDocker docker named) where
  -- `rollback`, from a world in which the service's name or the backup's name names the original:
  -- where it returns, the service's name names the original again; where it raises, one of the two
  -- names still does, and the exception does not say that the original is restored.
  pub rollback-Restores :
      (service : String) (state : RolloutState) (w : W)
      → (container_name service == state.backup) ≡ false
      → IsHeld docker laws (container_name service) state.backup state.old_id w
      → Ends
          (λ (_ : Unit {0}). IsNamed docker laws (container_name service) state.old_id)
          (Lost docker laws (IsHeld docker laws (container_name service) state.backup state.old_id))
          (rollback docker service state w)
  unfolding rollback
  rollback-Restores service state w apart held =
      (rollback_named-Leads docker laws (container_name service) state.backup state.old_id apart
          service state.service).at
        w held

  module _ (name : String) (state : RolloutState) where
    abbrev Back : W → Type 0
    Back = IsNamed docker laws name state.old_id

    abbrev Kept : W → Type 0
    Kept = IsNamed docker laws state.backup state.old_id

    abbrev Safe : W → Type 0
    Safe = IsHeld docker laws name state.backup state.old_id

    start_candidate-Leads :
        (name == state.backup) ≡ false
        → (service : String) (options : List String) (digest : String)
        → Leads Back
            (start_candidate docker service name state.backup options digest)
            (λ _. Kept)
            (Lost docker laws Safe)
    unfolding start_candidate
    start_candidate-Leads apart service options digest =
        Leads-bind
          (Leads-imply (λ w p. p) (λ a w q. q) back
            (command-Leads docker laws Back back_follows _ refl))
          (λ _.
            Leads-bind
              (Leads-imply (λ w p. p) (λ a w q. q) back
                (command-Leads docker laws Back back_follows _ refl))
              (λ _.
                Leads-bind
                  (Leads-imply (λ w p. p) (λ a w q. q) back
                    (rename-Leads docker laws name state.backup state.old_id name state.backup))
                  (λ _.
                    Leads-imply (λ w p. p) (λ a w q. q) kept
                      (Leads-bind
                        (create-Leads docker laws name state.backup state.old_id apart options)
                        (λ _.
                          Leads-bind
                            (connect_if_apisix-Leads docker laws Kept kept_follows service name)
                            (λ _.
                              Leads-bind (command-Leads docker laws Kept kept_follows _ refl) (λ _.
                                Leads-bind (pause-Leads docker laws Kept kept_follows 5) (λ _.
                                  Leads-bind (inspect-Leads docker laws Kept kept_follows name)
                                    (λ current.
                                      Leads-bind
                                        (Leads-imply (λ w p. p.0) (λ a w q. q.0) (λ e w r. r)
                                          (check-Leads docker laws Kept kept_follows
                                            ((current.image == digest) && current.running)
                                            "candidate exited or has wrong image" refl))
                                        (λ _.
                                          wait_if_udp-Leads docker laws Kept kept_follows service
                                            name))))))))))
      where
        back_follows : Follows docker laws Back
        back_follows = IsNamed-Follows docker laws name state.old_id

        kept_follows : Follows docker laws Kept
        kept_follows = IsNamed-Follows docker laws state.backup state.old_id

        back : (e : RolloutError) (w : W) → Lost docker laws Back e w → Lost docker laws Safe e w
        back = back-IsLost docker laws name state.backup state.old_id

        kept : (e : RolloutError) (w : W) → Lost docker laws Kept e w → Lost docker laws Safe e w
        kept = kept-IsLost docker laws name state.backup state.old_id

    -- How a staging raises: the original has its name back, or one of the two names has it and the
    -- exception does not say that it is restored.
    abbrev pub IsUnstaged : RolloutError → W → Type 0
    IsUnstaged e w = Back w ⊎ Lost docker laws Safe e w

    after_rollback-Ends :
        (x : Outcome RolloutError (Unit {0}) × W)
        → Ends (λ (_ : Unit {0}). Back) (Lost docker laws Safe) x
        → Ends (λ (_ : Unit {0}). Kept) IsUnstaged (after_rollback docker x)
    after_rollback-Ends (ok _, w) h = inl h
    after_rollback-Ends (raised e, w) h = inr h

    or_rollback-Ends :
        (name == state.backup) ≡ false
        → (service : String) (x : Outcome RolloutError (Unit {0}) × W)
        → Ends (λ (_ : Unit {0}). Kept) (Lost docker laws Safe) x
        → Ends (λ (_ : Unit {0}). Kept) IsUnstaged (or_rollback docker service name state x)
    or_rollback-Ends apart service (ok _, w) h = h
    or_rollback-Ends apart service (raised os_error, w) h = inr h
    or_rollback-Ends apart service (raised called_process_error, w) h = after_rollback-Ends _ (
        (rollback_named-Leads docker laws name state.backup state.old_id apart service
            state.service).at
          w h.0)
    or_rollback-Ends apart service (raised (value_error e), w) h = after_rollback-Ends _ (
        (rollback_named-Leads docker laws name state.backup state.old_id apart service
            state.service).at
          w h.0)

    try_candidate-Leads :
        (name == state.backup) ≡ false
        → (service : String) (options : List String) (digest : String)
        → Leads Back (try_candidate docker service name state options digest) (λ _. Kept) IsUnstaged
    unfolding try_candidate
    try_candidate-Leads apart service options digest = record {
      at = λ w p.
          or_rollback-Ends apart service _
            ((start_candidate-Leads apart service options digest).at w p);
    }

    seen :
        (o : Option Container) (w : W)
        → IsSeen docker laws Back (IsNamed-Follows docker laws name state.old_id) state.backup o w
        → Back w
    seen none w p = p
    seen (some c) w p = p.0

    stage-Leads :
        (name == state.backup) ≡ false
        → (service : String) (options : List String) (digest : String)
        → Leads Back (stage docker service name state options digest) (λ _. Kept) IsUnstaged
    unfolding stage
    stage-Leads apart service options digest =
        Leads-bind
          (Leads-imply (λ w p. p) seen (λ e w r. inl r.0)
            (look-Leads docker laws Back back_follows state.backup))
          (λ found.
            Leads-bind
              (Leads-imply (λ w p. p) (λ a w q. q.0) (λ e w r. inl r.0)
                (check-Leads docker laws Back back_follows (is_missing docker found)
                  "rollback name already exists" refl))
              (λ _.
                Leads-bind
                  (Leads-imply (λ w p. p) (λ a w q. q) (λ e w r. inl r.0)
                    (save-Leads docker laws Back back_follows state))
                  (λ _. try_candidate-Leads apart service options digest)))
      where
        back_follows : Follows docker laws Back
        back_follows = IsNamed-Follows docker laws name state.old_id

    -- A staging that begins while the service's name names the original, with another name for its
    -- backup: where it returns, the backup's name names the original, ready for a rollback; where
    -- it raises at any step, the service's name names the original again, or one of the two names
    -- does and the exception does not say that the original is restored.
    pub stage-KeepsOriginal :
        (service : String) (options : List String) (digest : String) (w : W)
        → (name == state.backup) ≡ false
        → IsNamed docker laws name state.old_id w
        → Ends
            (λ (_ : Unit {0}). IsNamed docker laws state.backup state.old_id)
            IsUnstaged
            (stage docker service name state options digest w)
    stage-KeepsOriginal service options digest w apart named_here =
        (stage-Leads apart service options digest).at w named_here
