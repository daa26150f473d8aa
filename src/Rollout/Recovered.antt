-- ===== src/Rollout/Recovered.antt =====
-- The first half of the rollback of ops/apisix/rollout_r4a_runtime.py on a docker that works: the
-- candidate is removed and the original has its name again.
use ouf_api_gateway.Base.{
  Bool, true, false, Option, none, some, String, List, [], ◌∷◌, ◌==◌, nat_eq, string_eq, ◌≡◌, refl,
  sym, ap, ◌∙◌, arith, ◌⊎◌, inl, inr, Bool-cases, eq_iff,
}
use ouf_api_gateway.Rollout.{
  Container, Docker, done, command, stop_running, remove_candidate, rename_original,
}
use ouf_api_gateway.Rollout.Held.{IsDocker, Ends, Leads, Leads-bind, is_naming}
use ouf_api_gateway.Rollout.Working.{IsWorking, Never, ran-Ends, check-Returns}

module _ {W : Type 0} (docker : Docker W) {named : W → String → Option String}
    {alive : W → String → Bool} (laws : IsDocker docker named)
    (working : IsWorking docker named alive) (name backup old_id : String) where
  -- The original has its name, and the backup's name is free.
  abbrev pub IsHome : W → Type 0
  IsHome w = (named w name ≡ some old_id) × (named w backup ≡ none)

  -- The backup's name has it, and its own name is free.
  abbrev pub IsAway : W → Type 0
  IsAway w = (named w backup ≡ some old_id) × (named w name ≡ none)

  -- The backup's name has it, and its own name is another container's.
  abbrev pub IsReplaced : W → Type 0
  IsReplaced w =
      (named w backup ≡ some old_id)
      × ((id : String) × (named w name ≡ some id) × ((id == old_id) ≡ false))

  abbrev pub IsBack : W → Type 0
  IsBack w = named w name ≡ some old_id

  abbrev pub IsKept : W → Type 0
  IsKept w = named w backup ≡ some old_id

  -- The backup's name has it, and the service's name another container: `b` says whether that runs.
  pub record Standing (b : Bool) (w : W) : Type 0 where
    pub kept : IsKept w
    pub id : String
    pub there : named w name ≡ some id
    pub running : b ≡ alive w name

  -- What the look at the service's name tells.
  abbrev pub IsFound : Option Container → W → Type 0
  IsFound none w = IsAway w
  IsFound (some c) w =
      ((c.id ≡ old_id) × IsHome w) ⊎ (((c.id == old_id) ≡ false) × Standing c.running w)

  -- What the look at the backup's name tells.
  abbrev pub IsSaved : Option Container → W → Type 0
  IsSaved none w = IsHome w
  IsSaved (some c) w = (c.id ≡ old_id) × IsAway w

  pub same :
      (n : String) (w : W) (j : String) {o : Option String}
      → named w j ≡ o
      → named (docker.inspect n w).1 j ≡ o
  same n w j h = laws.inspect_keeps n w j ∙ h

  pub found :
      (w : W)
      → IsHome w ⊎ (IsAway w ⊎ IsReplaced w)
      → IsFound (docker.inspect name w).0 (docker.inspect name w).1
  found w (inl (here, free)) =
      let c = working.finds name w old_id here in
      rw c.1 (inl (c.2, (same name w name here, same name w backup free)))
  found w (inr (inl (kept, free))) =
      rw (working.misses name w free) (same name w backup kept, same name w name free)
  found w (inr (inr (kept, (id, there, other)))) =
      let c = working.finds name w id there in
      rw c.1 (
        inr (
          ap (λ s. s == old_id) c.2 ∙ other,
          record {
            kept = same name w backup kept;
            id = id;
            there = same name w name there;
            running = c.3 ∙ sym (working.inspect_keeps_alive name w name);
          },
        ))

  pub saved :
      (w : W)
      → IsHome w ⊎ IsAway w
      → IsSaved (docker.inspect backup w).0 (docker.inspect backup w).1
  saved w (inl (here, free)) =
      rw (working.misses backup w free) (same backup w name here, same backup w backup free)
  saved w (inr (kept, free)) =
      let c = working.finds backup w old_id kept in
      rw c.1 (c.2, (same backup w backup kept, same backup w name free))

  -- A command that succeeds and is not about names.
  standing :
      (args : List String) (w : W) (b b' : Bool)
      → is_naming args ≡ false
      → (docker.run args w).0 ≡ true
      → b' ≡ alive (docker.run args w).1 name
      → Standing b w
      → Ends (λ (_ : Unit {0}). Standing b') Never (command docker args w)
  unfolding command
  standing args w b b' other goes running p =
      ran-Ends (Standing b') (docker.run args w) goes (record {
        kept = laws.other_keeps args w backup other ∙ p.kept;
        id = p.id;
        there = laws.other_keeps args w name other ∙ p.there;
        running = running;
      })

  released :
      (b : Bool)
      → Leads
          (Standing b)
          (command docker ("update" ∷ "--restart" ∷ "no" ∷ name ∷ []))
          (λ _. Standing b)
          Never
  released b = record {
    at = λ w p.
        let (goes, alike) = working.update_keeps "no" name w p.id p.there in
        standing _ w b b refl goes (p.running ∙ sym alike) p;
  }

  stopped : (b : Bool) → Leads (Standing b) (stop_running docker b name) (λ _. Standing false) Never
  unfolding done
  stopped true = record {
    at = λ w p.
        let (goes, down) = working.stop_stops name w p.id p.there in
        standing _ w true false refl goes (sym down) p;
  }
  stopped false = record { at = λ w p. p }

  removed :
      (name == backup) ≡ false
      → Leads
          (Standing false)
          (command docker ("rm" ∷ name ∷ []))
          (λ _ w. IsHome w ⊎ IsAway w)
          Never
  unfolding command
  removed apart = record {
    at = λ w p.
        let (goes, free) = working.rm_frees name w p.id p.there (sym p.running) in
        ran-Ends (λ w. IsHome w ⊎ IsAway w) (docker.run _ w) goes
          (inr (laws.rm_keeps name w backup apart ∙ p.kept, free));
  }

  pub remove_candidate-Returns :
      (name == backup) ≡ false
      → (current : Option Container)
      → Leads
          (IsFound current)
          (remove_candidate docker name old_id current)
          (λ _ w. IsHome w ⊎ IsAway w)
          Never
  unfolding remove_candidate done
  remove_candidate-Returns apart none = record { at = λ w p. inr p }
  remove_candidate-Returns apart (some c) = elim (Bool-cases (c.id == old_id)) [
    | inl own ↦ rw own (record {
      at = λ w p. elim p [
        | inl q ↦ inl q.1
        | inr q ↦ absurd (let h = q.0 in ground (arith, h, own))
      ];
    })
    | inr other ↦ rw other (record {
      at = λ w p.
          (Leads-bind (released c.running)
              (λ _. Leads-bind (stopped c.running) (λ _. removed apart))).at
            w
            (elim p [
              | inl q ↦ absurd (let h = (eq_iff c.id old_id).1 q.0 in ground (arith, h, other))
              | inr q ↦ q.1
            ]);
    })
  ]

  pub rename_original-Returns :
      (original : Option Container)
      → Leads
          (IsSaved original)
          (rename_original docker name backup old_id original)
          (λ _. IsBack)
          Never
  unfolding rename_original done command
  rename_original-Returns none = record { at = λ w p. p.0 }
  rename_original-Returns (some c) =
      Leads-bind
        (check-Returns (IsSaved (some c)) (c.id == old_id) "rollback container identity mismatch"
          (λ w p. (eq_iff c.id old_id).1 p.0))
        (λ _. record {
          at = λ w p.
              let goes = working.rename_succeeds backup name old_id w p.1.0 p.1.1 in
              ran-Ends IsBack (docker.run _ w) goes (laws.rename_moves backup name w goes ∙ p.1.0);
        })
