-- ===== src/Rollout/Restored.antt =====
-- The original container through the rollback and the staging of
-- ops/apisix/rollout_r4a_runtime.py: it is never lost.
use mathlib.Core.Option.{some-injective}
use ouf_api_gateway.Base.{
  Bool, true, false, Option, none, some, String, List, [], ◌∷◌, ◌==◌, string_eq, Outcome, ok,
  raised, ◌≡◌, refl, sym, ap, ◌∙◌, arith, inl, inr, Bool-cases, eq_iff,
}
use ouf_api_gateway.Rollout.{
  Container, RolloutError, called_process_error, Docker, Call, ran, command, remove_candidate,
  rename_original, confirm_original, rollback_named,
}
use ouf_api_gateway.Rollout.Held.{
  IsDocker, Ends, Leads, Leads-bind, IsNamed, IsHeld, Lost, IsSeen, Follows, IsNamed-Follows,
  IsHeld-Follows, done-Leads, check-Leads, command-Leads, inspect-Leads, look-Leads,
  wait_if_udp-Leads, start_stopped-Leads, stop_running-Leads,
}

imply-Ends :
    {W A : Type 0} {Q Q' : A → W → Type 0} {R R' : RolloutError → W → Type 0}
    → ((a : A) (w : W) → Q a w → Q' a w)
    → ((e : RolloutError) (w : W) → R e w → R' e w)
    → (x : Outcome RolloutError A × W) → Ends Q R x
    → Ends Q' R' x
imply-Ends q r (ok a, w) h = q a w h
imply-Ends q r (raised e, w) h = r e w h

pub Leads-imply :
    {W A : Type 0} {P P' : W → Type 0} {Q Q' : A → W → Type 0} {R R' : RolloutError → W → Type 0}
    {m : Call W A}
    → ((w : W) → P' w → P w)
    → ((a : A) (w : W) → Q a w → Q' a w)
    → ((e : RolloutError) (w : W) → R e w → R' e w)
    → Leads P m Q R
    → Leads P' m Q' R'
Leads-imply p q r h = record { at = λ w p'. imply-Ends q r _ (h.at w (p w p')) }

module _ {W : Type 0} (docker : Docker W) {named : W → String → Option String}
    (laws : IsDocker docker named) (name backup old_id : String) where
  abbrev pub IsBack : W → Type 0
  IsBack = IsNamed docker laws name old_id

  abbrev pub IsKept : W → Type 0
  IsKept = IsNamed docker laws backup old_id

  abbrev pub IsSafe : W → Type 0
  IsSafe = IsHeld docker laws name backup old_id

  abbrev pub IsLost : (W → Type 0) → RolloutError → W → Type 0
  IsLost P = Lost docker laws P

  pub seen-Follows :
      (P : W → Type 0) (j id : String)
      → Follows docker laws P
      → Follows docker laws (λ w. P w × (named w j ≡ some id))
  seen-Follows P j id follows = record {
    along = λ w w' same p. (follows.along w w' same p.0, same j ∙ p.1);
  }

  rm-Ends :
      (x : Bool × W)
      → IsKept x.1
      → Ends (λ (_ : Unit {0}). IsKept) (IsLost IsKept) (ran called_process_error x)
  rm-Ends (true, w) p = p
  rm-Ends (false, w) p = (p, refl)

  rm-Leads :
      (name == backup) ≡ false
      → Leads IsKept (command docker ("rm" ∷ name ∷ [])) (λ _. IsKept) (IsLost IsKept)
  unfolding command
  rm-Leads apart = record {
    at = λ w p. rm-Ends (docker.run _ w) (laws.rm_keeps name w backup apart ∙ p);
  }

  pub create-Leads :
      (name == backup) ≡ false
      → (options : List String)
      → Leads IsKept
          (command docker ("create" ∷ "--name" ∷ name ∷ options))
          (λ _. IsKept)
          (IsLost IsKept)
  unfolding command
  create-Leads apart options = record {
    at = λ w p. rm-Ends (docker.run _ w) (laws.create_keeps name options w backup apart ∙ p);
  }

  rename-Ends :
      (from to : String) (w : W) (x : Bool × W)
      → named w from ≡ some old_id
      → (x.0 ≡ true → named x.1 to ≡ named w from)
      → (x.0 ≡ false → (j : String) → named x.1 j ≡ named w j)
      → Ends
          (λ (_ : Unit {0}) w. named w to ≡ some old_id)
          (IsLost (λ w. named w from ≡ some old_id))
          (ran called_process_error x)
  rename-Ends from to w (true, w') p moved same = moved refl ∙ p
  rename-Ends from to w (false, w') p moved same = (same refl from ∙ p, refl)

  pub rename-Leads :
      (from to : String)
      → Leads
          (λ w. named w from ≡ some old_id)
          (command docker ("rename" ∷ from ∷ to ∷ []))
          (λ _ w. named w to ≡ some old_id)
          (IsLost (λ w. named w from ≡ some old_id))
  unfolding command
  rename-Leads from to = record {
    at = λ w p.
        rename-Ends from to w (docker.run _ w) p (laws.rename_moves from to w)
          (λ failed j. laws.rename_fails from to w j failed);
  }

  -- A name that names another container does not name the original.
  held_elsewhere :
      (id : String) (w : W)
      → (id == old_id) ≡ false
      → IsSafe w × (named w name ≡ some id)
      → IsKept w
  held_elsewhere id w other (inl here, seen) = absurd (
      let same = some-injective _ _ (sym seen ∙ here) in
      let e = (eq_iff id old_id).1 same in ground (arith, e, other))
  held_elsewhere id w other (inr there, seen) = there

  pub kept-IsLost : (e : RolloutError) (w : W) → IsLost IsKept e w → IsLost IsSafe e w
  kept-IsLost e w (p, quiet) = (inr p, quiet)

  pub back-IsLost : (e : RolloutError) (w : W) → IsLost IsBack e w → IsLost IsSafe e w
  back-IsLost e w (p, quiet) = (inl p, quiet)

  remove_candidate-Leads :
      (name == backup) ≡ false
      → (current : Option Container)
      → Leads
          (IsSeen docker laws IsSafe (IsHeld-Follows docker laws name backup old_id) name current)
          (remove_candidate docker name old_id current)
          (λ _. IsSafe)
          (IsLost IsSafe)
  unfolding remove_candidate
  remove_candidate-Leads apart none =
      done-Leads docker laws IsSafe (IsHeld-Follows docker laws name backup old_id)
  remove_candidate-Leads apart (some current) = elim (Bool-cases (current.id == old_id)) [
    | inl same ↦ rw same (
        Leads-imply (λ w p. p.0) (λ a w q. q) (λ e w r. r)
          (done-Leads docker laws IsSafe (IsHeld-Follows docker laws name backup old_id)))
    | inr other ↦ rw other (
        Leads-imply (λ w p. held_elsewhere current.id w other p) (λ a w q. inr q) kept-IsLost
          (Leads-bind
            (command-Leads docker laws IsKept (IsNamed-Follows docker laws backup old_id) _ refl)
            (λ _.
              Leads-bind
                (stop_running-Leads docker laws IsKept (IsNamed-Follows docker laws backup old_id)
                  current.running name)
                (λ _. rm-Leads apart))))
  ]

  rename_original-Leads :
      (original : Option Container)
      → Leads
          (IsSeen docker laws IsSafe
            (IsHeld-Follows docker laws name backup old_id)
            backup
            original)
          (rename_original docker name backup old_id original)
          (λ _. IsSafe)
          (IsLost IsSafe)
  unfolding rename_original
  rename_original-Leads none =
      done-Leads docker laws IsSafe (IsHeld-Follows docker laws name backup old_id)
  rename_original-Leads (some original) =
      Leads-bind
        (Leads-imply (λ w p. p) (λ a w q. q.0.1 ∙ ap some ((eq_iff original.id old_id).0 q.1))
          (λ e w r. (r.0.0, r.1))
          (check-Leads docker laws _
            (seen-Follows IsSafe backup original.id (IsHeld-Follows docker laws name backup old_id))
            (original.id == old_id) "rollback container identity mismatch" refl))
        (λ _. Leads-imply (λ w p. p) (λ a w q. inl q) kept-IsLost (rename-Leads backup name))

  confirm_original-Leads :
      (service : String)
      → Leads IsSafe (confirm_original docker service name old_id) (λ _. IsBack) (IsLost IsSafe)
  unfolding confirm_original
  confirm_original-Leads service =
      Leads-bind
        (inspect-Leads docker laws IsSafe (IsHeld-Follows docker laws name backup old_id) name)
        (λ restored.
          Leads-bind
            (Leads-imply (λ w p. p) (λ a w q. q.0.1 ∙ ap some ((eq_iff restored.id old_id).0 q.1))
              (λ e w r. (r.0.0, r.1))
              (check-Leads docker laws _
                (seen-Follows IsSafe name restored.id
                  (IsHeld-Follows docker laws name backup old_id))
                (restored.id == old_id) "cannot restore original container" refl))
            (λ _.
              Leads-imply (λ w p. p) (λ a w q. q) back-IsLost
                (Leads-bind
                  (start_stopped-Leads docker laws IsBack back_follows restored.running name)
                  (λ _. Leads-bind (command-Leads docker laws IsBack back_follows _ refl) (λ _.
                    Leads-bind (inspect-Leads docker laws IsBack back_follows name) (λ again.
                      Leads-bind
                        (Leads-imply (λ w p. p.0) (λ a w q. q.0) (λ e w r. r)
                          (check-Leads docker laws IsBack back_follows again.running
                            "original container did not restart" refl))
                        (λ _. wait_if_udp-Leads docker laws IsBack back_follows service name)))))))
    where
      back_follows : Follows docker laws IsBack
      back_follows = IsNamed-Follows docker laws name old_id

  pub rollback_named-Leads :
      (name == backup) ≡ false
      → (service state_service : String)
      → Leads IsSafe
          (rollback_named docker service name
            (record { service = state_service; old_id = old_id; backup = backup }))
          (λ _. IsBack)
          (IsLost IsSafe)
  unfolding rollback_named
  rollback_named-Leads apart service state_service =
      Leads-bind (look-Leads docker laws IsSafe safe_follows name) (λ current.
        Leads-bind (remove_candidate-Leads apart current) (λ _.
          Leads-bind (look-Leads docker laws IsSafe safe_follows backup) (λ original.
            Leads-bind (rename_original-Leads original) (λ _. confirm_original-Leads service))))
    where
      safe_follows : Follows docker laws IsSafe
      safe_follows = IsHeld-Follows docker laws name backup old_id
