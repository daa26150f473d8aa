-- ===== src/Deploy/Atomic.antt =====
-- `apply` of ops/apisix/deploy_internal_m2m_routes.py as a whole, and `snapshot` with `restore`.
use mathlib.Core.Path.{subst}
use ouf_api_gateway.Base.{
  nat_eq, false, Option, String, List, [], ◌∷◌, string_eq, ◌≡◌, refl, sym, Outcome, ok, raised,
  Bool-cases, inl, inr, ◌∙◌, arith, All, contains, Outcome-cases,
}
use ouf_api_gateway.Base.Dict.{Dict}
use ouf_api_gateway.Document.{Value}
use ouf_api_gateway.Deploy.{
  Admin, ◌>>=◌, lift, continued, DeployError, value_error, runtime_error, rollback_incomplete,
  type_error, unreachable,
}
use ouf_api_gateway.Deploy.Routes.{
  install, apply, guarded, or_restore, after_failure, reported, snapshot, restore, validate_each,
}
use ouf_api_gateway.Deploy.Table.{IsAdmin}
use ouf_api_gateway.Deploy.Validated.{
  IsOther, validate_each-IsOther, validate_each-HaveOwnIds, validate_each-unlisted,
}
use ouf_api_gateway.Deploy.Keeps.{snapshot-Keeps, install-Keeps}
use ouf_api_gateway.Deploy.Restored.{
  IsOriginal, has_entry, restore-Restores, restore-other, Restores, restored-table,
}
use ouf_api_gateway.Deploy.Snapshots.{snapshot-IsOriginal, bind-runs, bind-raises}
use ouf_api_gateway.Deploy.Installed.{IsInstalled, install-IsInstalled}

module _ {W : Type 0} (admin : Admin W) {table : W → String → Option Value} {filled : Value → Value}
    (laws : IsAdmin admin table filled) where
  -- What an installation leaves: on return the routes, else the table as it was; where the
  -- rollback itself is reported as incomplete, only the routes' own entries may differ.
  abbrev pub IsAtomic : List Value → W → Outcome DeployError (Unit {0}) × W → Type 0
  IsAtomic routes w (ok _, w') =
      All (IsInstalled (table w')) routes
      × ((j : String) → IsOther routes j → table w' j ≡ table w j)
  IsAtomic routes w (raised (rollback_incomplete ids), w') =
      (j : String) → IsOther routes j → table w' j ≡ table w j
  IsAtomic routes w (raised (value_error e), w') = (j : String) → table w' j ≡ table w j
  IsAtomic routes w (raised (runtime_error e), w') = (j : String) → table w' j ≡ table w j
  IsAtomic routes w (raised type_error, w') = (j : String) → table w' j ≡ table w j
  IsAtomic routes w (raised unreachable, w') = (j : String) → table w' j ≡ table w j

  pub unchanged-IsAtomic :
      (routes : List Value) (w w' : W) (e : DeployError)
      → ((j : String) → table w' j ≡ table w j)
      → IsAtomic routes w (raised e, w')
  unchanged-IsAtomic routes w w' (rollback_incomplete ids) h = λ j _. h j
  unchanged-IsAtomic routes w w' (value_error e) h = h
  unchanged-IsAtomic routes w w' (runtime_error e) h = h
  unchanged-IsAtomic routes w w' type_error h = h
  unchanged-IsAtomic routes w w' unreachable h = h

  -- The handler's end: the first exception again, or the one of the restore.
  pub after_failure-IsAtomic :
      (routes : List Value) (w : W) (e : DeployError) (x : List String × W)
      → Restores admin laws w (reported admin x)
      → ((j : String) → IsOther routes j → table (reported admin x).1 j ≡ table w j)
      → IsAtomic routes w (after_failure admin e (reported admin x))
  after_failure-IsAtomic routes w e ([], w') h other = unchanged-IsAtomic routes w w' e h
  after_failure-IsAtomic routes w e (id ∷ ids, w') h other = other

  or_restore-IsAtomic :
      (routes : List Value) (ids : List String) (before : W) (previous : Dict Value)
      (x : Outcome DeployError (Unit {0}) × W)
      → All (IsOriginal admin laws before) previous
      → ((j : String) → has_entry j previous ≡ contains ids j)
      → ((j : String) → contains ids j ≡ false → IsOther routes j)
      → ((j : String) → IsOther routes j → contains ids j ≡ false)
      → ((j : String) → IsOther routes j → table x.1 j ≡ table before j)
      → (x.0 ≡ ok tt → All (IsInstalled (table x.1)) routes)
      → IsAtomic routes before (or_restore admin previous x)
  unfolding restore
  or_restore-IsAtomic routes ids before previous (ok _, w) originals entries unlisted listed other
        done =
      (done refl, other)
  or_restore-IsAtomic routes ids before previous (raised e, w) originals entries unlisted listed
        other done =
      after_failure-IsAtomic routes before e _
        (restore-Restores admin laws before previous w originals (λ j.
          elim (Bool-cases (contains ids j)) [
            | inl is_listed ↦ inr (entries j ∙ is_listed)
            | inr is_unlisted ↦ inl (other j (unlisted j is_unlisted))
          ]))
        (λ j o. restore-other admin laws before previous w j (entries j ∙ listed j o) ∙ other j o)

  guarded-IsAtomic :
      (anonymous_probe : Value → Value) (routes : List Value) (ids : List String) (before w : W)
      (previous : Dict Value)
      → ((j : String) → table w j ≡ table before j)
      → All (IsOriginal admin laws before) previous
      → ((j : String) → has_entry j previous ≡ contains ids j)
      → validate_each [] routes ≡ ok ids
      → IsAtomic routes before (guarded admin anonymous_probe previous routes w)
  unfolding guarded
  guarded-IsAtomic anonymous_probe routes ids before w previous same originals entries valid =
      or_restore-IsAtomic routes ids before previous (install admin anonymous_probe routes w)
        originals entries (validate_each-IsOther [] routes ids valid)
        (λ j. validate_each-unlisted [] routes ids valid j refl)
        (λ j other. (install-Keeps admin laws anonymous_probe routes).at w j other ∙ same j)
        (install-IsInstalled admin laws anonymous_probe routes w
          (validate_each-HaveOwnIds [] routes ids valid))

  snapshot_then-IsAtomic :
      (anonymous_probe : Value → Value) (routes : List Value) (ids : List String) (w : W)
      → validate_each [] routes ≡ ok ids
      → IsAtomic routes w
          ((snapshot admin ids >>= λ previous. guarded admin anonymous_probe previous routes) w)
  snapshot_then-IsAtomic anonymous_probe routes ids w valid =
      let kept = λ (j : String). (snapshot-Keeps admin laws (λ _. Unit) ids).at w j tt in
      elim (Outcome-cases (snapshot admin ids w).0) [
        | inl (previous, q) ↦
            let originals = snapshot-IsOriginal admin laws w ids w previous (λ j. refl) q in
            subst (IsAtomic routes w) (sym (bind-runs (snapshot admin ids) _ w previous q)) (
              guarded-IsAtomic anonymous_probe routes ids w _ previous kept originals.0 originals.1
                valid)
        | inr (e, q) ↦
            subst (IsAtomic routes w) (sym (bind-raises (snapshot admin ids) _ w e q))
              (unchanged-IsAtomic routes w _ e kept)
      ]

  validated_then-IsAtomic :
      (anonymous_probe : Value → Value) (routes : List Value) (w : W)
      (r : Outcome DeployError (List String))
      → ((ids : List String) → r ≡ ok ids → validate_each [] routes ≡ ok ids)
      → IsAtomic routes w (
          (lift r >>= λ ids.
          snapshot admin ids >>= λ previous. guarded admin anonymous_probe previous routes)
            w)
  unfolding lift ◌>>=◌ continued
  validated_then-IsAtomic anonymous_probe routes w (raised e) valid =
      unchanged-IsAtomic routes w w e (λ j. refl)
  validated_then-IsAtomic anonymous_probe routes w (ok ids) valid =
      snapshot_then-IsAtomic anonymous_probe routes ids w (valid ids refl)

  -- `apply`: when it returns, every route is stored under its id with each configured field
  -- unchanged, and no other entry has changed. When it raises, the whole table is as it was,
  -- unless the rollback is reported as incomplete, in which case entries of other ids are as they
  -- were. The Admin API's documented answers are the hypothesis `laws`.
  pub apply-IsAtomic :
      (anonymous_probe : Value → Value) (routes : List Value) (w : W)
      → IsAtomic routes w (apply admin anonymous_probe routes w)
  unfolding apply
  apply-IsAtomic anonymous_probe [] w =
      validated_then-IsAtomic anonymous_probe [] w _ (λ ids h. absurd (ground arith))
  apply-IsAtomic anonymous_probe (r ∷ rs) w =
      validated_then-IsAtomic anonymous_probe (r ∷ rs) w (validate_each [] (r ∷ rs)) (λ ids h. h)

  -- A snapshot and its restore are inverse: where the table has changed since the snapshot at
  -- most at the ids of the snapshot, a restore that returns leaves the whole table as it was when
  -- the snapshot was taken.
  pub restore-snapshot :
      (ids : List String) (w w' : W) (d : Dict Value)
      → (snapshot admin ids w).0 ≡ ok d
      → ((j : String) → contains ids j ≡ false → table w' j ≡ table w j)
      → (restore admin d w').0 ≡ ok tt
      → (j : String) → table (restore admin d w').1 j ≡ table w j
  restore-snapshot ids w w' d q same done =
      let originals = snapshot-IsOriginal admin laws w ids w d (λ j. refl) q in
      restored-table admin laws w _ done (
        restore-Restores admin laws w d w' originals.0 (λ j. elim (Bool-cases (contains ids j)) [
          | inl is_listed ↦ inr (originals.1 j ∙ is_listed)
          | inr is_unlisted ↦ inl (same j is_unlisted)
        ]))
