-- ===== src/Deploy/Status/Atomic.antt =====
-- `apply_routes` of ops/apisix/deploy_status_execute.py against the route table.
use mathlib.Core.Path.{subst}
use ouf_api_gateway.Base.{
  true, false, Option, String, List, [], ◌∷◌, string_eq, ◌≡◌, refl, sym, ap, ◌∙◌, ◌⊎◌, inl, inr, ok,
  raised, Outcome-cases, All, contains,
}
use ouf_api_gateway.Base.Dict.{Dict, lookup, AllEntries, AllEntries-lookup}
use ouf_api_gateway.Document.{Value, or_null}
use ouf_api_gateway.Deploy.{Admin, ◌>>=◌}
use ouf_api_gateway.Deploy.Routes.{restore_each, save}
use ouf_api_gateway.Deploy.Table.{IsAdmin}
use ouf_api_gateway.Deploy.Validated.{IsOther, HaveOwnIds}
use ouf_api_gateway.Deploy.Keeps.{Keeps-save}
use ouf_api_gateway.Deploy.Restored.{
  IsOriginal, has_entry, reported-Restores, reported-world, restore_each-other,
  restore_each-restores,
}
use ouf_api_gateway.Deploy.Snapshots.{has_entry-cons, bind-runs, bind-raises}
use ouf_api_gateway.Deploy.Installed.{IsInstalled}
use ouf_api_gateway.Deploy.Atomic.{IsAtomic, after_failure-IsAtomic, unchanged-IsAtomic}
use ouf_api_gateway.Deploy.Status.{
  read_previous, attempt, entries, or_roll_back, attempt_all, apply_routes,
}
use ouf_api_gateway.Deploy.Status.Read.{IsKnown, IsRead, read_previous-Keeps, read_previous-IsRead}
use ouf_api_gateway.Deploy.Status.Tracked.{
  Tried, attempt-IsTracked, attempt-keeps, attempt-unlisted, attempt-IsInstalled,
}

module _ {W : Type 0} (admin : Admin W) {table : W → String → Option Value} {filled : Value → Value}
    (laws : IsAdmin admin table filled) where
  entries-IsOriginal :
      (before : W) (d : Dict Value) (ids : List String)
      → AllEntries (λ k v. IsOriginal admin laws before (k, v)) d
      → All (IsKnown d) ids
      → All (IsOriginal admin laws before) (entries admin d ids)
  unfolding entries
  entries-IsOriginal before d [] originals known = tt
  entries-IsOriginal before d (id ∷ ids) originals ((old, q), known) = (
    subst (λ o. IsOriginal admin laws before (id, or_null o)) (sym q)
        (AllEntries-lookup _ id old d originals q),
    entries-IsOriginal before d ids originals known,
  )

  has_entry-entries :
      (d : Dict Value) (ids : List String) (j : String)
      → has_entry j (entries admin d ids) ≡ contains ids j
  unfolding entries
  has_entry-entries d [] j = refl
  has_entry-entries d (id ∷ ids) j =
      has_entry-cons id j (or_null (lookup id d)) (entries admin d ids) (contains ids j)
        (has_entry-entries d ids j)

  or_roll_back-IsAtomic :
      (routes : List Value) (before : W) (d : Dict Value) (x : Tried admin laws)
      → AllEntries (λ k v. IsOriginal admin laws before (k, v)) d
      → ((j : String) → (table x.1.1 j ≡ table before j) ⊎ (contains x.0 j ≡ true))
      → All (IsKnown d) x.0
      → ((j : String) → IsOther routes j → table x.1.1 j ≡ table before j)
      → ((j : String) → IsOther routes j → contains x.0 j ≡ false)
      → (x.1.0 ≡ ok tt → All (IsInstalled (table x.1.1)) routes)
      → IsAtomic admin laws routes before (or_roll_back admin d x)
  or_roll_back-IsAtomic routes before d (attempted, (ok _, w)) originals entered known other
        unlisted done =
      (done refl, other)
  or_roll_back-IsAtomic routes before d (attempted, (raised e, w)) originals entered known other
        unlisted done =
      after_failure-IsAtomic admin laws routes before e
        (restore_each admin (entries admin d attempted) w)
        (reported-Restores admin laws before (restore_each admin (entries admin d attempted) w)
          (λ all_answered j.
            restore_each-restores admin laws before (entries admin d attempted) w
              (entries-IsOriginal before d attempted originals known) all_answered j
              (elim (entered j) [
                | inl same ↦ inl same
                | inr listed ↦ inr (has_entry-entries d attempted j ∙ listed)
              ])))
        (λ j o.
          ap (λ w'. table w' j)
            (reported-world admin laws before (restore_each admin (entries admin d attempted) w))
          ∙ restore_each-other admin laws before (entries admin d attempted) w j
              (has_entry-entries d attempted j ∙ unlisted j o)
          ∙ other j o)

  module _ (execute_probe : Value) where
    attempt_all-IsAtomic :
        (before w : W) (d : Dict Value) (routes : List Value)
        → ((j : String) → table w j ≡ table before j)
        → HaveOwnIds routes
        → IsRead admin laws before routes [] d
        → IsAtomic admin laws routes before (attempt_all admin execute_probe d routes w)
    unfolding attempt_all
    attempt_all-IsAtomic before w d routes same own read =
        let tracked =
          attempt-IsTracked admin laws execute_probe before d routes [] w read.covers
            (λ j. inl (same j)) tt in
        or_roll_back-IsAtomic routes before d (attempt admin execute_probe routes [] w)
          read.originals tracked.entered tracked.known
          (λ j other. attempt-keeps admin laws execute_probe j routes [] w other ∙ same j)
          (λ j other. attempt-unlisted admin laws execute_probe j routes [] w other refl)
          (attempt-IsInstalled admin laws execute_probe routes [] w own)

    saved_then-IsAtomic :
        (before w : W) (d : Dict Value) (routes : List Value)
        → ((j : String) → table w j ≡ table before j)
        → HaveOwnIds routes
        → IsRead admin laws before routes [] d
        → IsAtomic admin laws routes before
            ((save admin d >>= λ _. attempt_all admin execute_probe d routes) w)
    saved_then-IsAtomic before w d routes same own read =
        let kept = λ (j : String). (Keeps-save admin laws (λ _. Unit) d).at w j tt ∙ same j in
        elim (Outcome-cases (save admin d w).0) [
          | inl (u, q) ↦
              subst (IsAtomic admin laws routes before) (sym (bind-runs (save admin d) _ w u q))
                (attempt_all-IsAtomic before (save admin d w).1 d routes kept own read)
          | inr (e, q) ↦
              subst (IsAtomic admin laws routes before) (sym (bind-raises (save admin d) _ w e q))
                (unchanged-IsAtomic admin laws routes before (save admin d w).1 e kept)
        ]

    -- `apply_routes` on routes with different ids: when it returns, every route is stored under
    -- its id with each configured field unchanged and no other entry has changed; when it raises,
    -- the whole table is as it was, unless the rollback is reported as incomplete, in which case
    -- the entries of other ids are as they were. `laws` are the Admin API's documented answers.
    pub apply_routes-IsAtomic :
        (routes : List Value) (w : W)
        → HaveOwnIds routes
        → IsAtomic admin laws routes w (apply_routes admin execute_probe routes w)
    unfolding apply_routes
    apply_routes-IsAtomic routes w own =
        let kept =
          λ (j : String). (read_previous-Keeps admin laws (λ _. Unit) routes []).at w j tt in
        elim (Outcome-cases (read_previous admin routes [] w).0) [
          | inl (d, q) ↦
              subst (IsAtomic admin laws routes w)
                (sym (bind-runs (read_previous admin routes []) _ w d q))
                (saved_then-IsAtomic w (read_previous admin routes [] w).1 d routes kept own
                  (read_previous-IsRead admin laws w w routes [] d (λ j. refl) tt q))
          | inr (e, q) ↦
              subst (IsAtomic admin laws routes w)
                (sym (bind-raises (read_previous admin routes []) _ w e q))
                (unchanged-IsAtomic admin laws routes w (read_previous admin routes [] w).1 e kept)
        ]
