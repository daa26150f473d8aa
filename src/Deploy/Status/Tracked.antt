-- ===== src/Deploy/Status/Tracked.antt =====
-- The `try` of `apply_routes` of ops/apisix/deploy_status_execute.py: what has been attempted where it ends.
use ouf_api_gateway.Base.{
  true, false, Option, String, List, [], ◌∷◌, ◌==◌, string_eq, ◌≡◌, refl, ◌∙◌, ◌⊎◌, inl, inr,
  Outcome, ok, raised, Bool-cases, All, contains, eq_iff, arith,
}
use ouf_api_gateway.Base.Dict.{Dict}
use ouf_api_gateway.Document.{Value}
use ouf_api_gateway.Deploy.{Admin, DeployError}
use ouf_api_gateway.Deploy.Routes.{text_at, written_as}
use ouf_api_gateway.Deploy.Table.{IsAdmin}
use ouf_api_gateway.Deploy.Validated.{IsOther, HaveOwnIds}
use ouf_api_gateway.Deploy.Keeps.{Keeps, Keeps-bind, Keeps-check, Keeps-probe, written_as-Keeps}
use ouf_api_gateway.Deploy.Installed.{IsInstalled, IsInstalled-same, written_as-IsInstalled}
use ouf_api_gateway.Deploy.Status.{check_public, attempt, for_id, stopped}
use ouf_api_gateway.Deploy.Status.Read.{IsKnown}

module _ {W : Type 0} (admin : Admin W) {table : W → String → Option Value} {filled : Value → Value}
    (laws : IsAdmin admin table filled) where
  abbrev pub Tried : Type 0
  Tried = List String × (Outcome DeployError (Unit {0}) × W)

  stopped-All :
      (P : Tried → Type 0) (attempted : List String) (x : Outcome DeployError (Unit {0}) × W)
      (k : W → Tried)
      → ((e : DeployError) → P (attempted, (raised e, x.1)))
      → (x.0 ≡ ok tt → P (k x.1))
      → P (stopped admin attempted x k)
  stopped-All P attempted (ok _, w) k failed went_on = went_on refl
  stopped-All P attempted (raised e, w) k failed went_on = failed e

  for_id-All :
      (P : Tried → Type 0) (attempted : List String) (r : Outcome DeployError String) (w : W)
      (k : String → Tried)
      → ((e : DeployError) → P (attempted, (raised e, w)))
      → ((id : String) → r ≡ ok id → P (k id))
      → P (for_id admin attempted r w k)
  for_id-All P attempted (ok id) w k failed went_on = went_on id refl
  for_id-All P attempted (raised e) w k failed went_on = failed e

  unlisted-cons :
      (id j : String) (ids : List String)
      → (id == j) ≡ false
      → contains ids j ≡ false
      → contains (id ∷ ids) j ≡ false
  unlisted-cons id j ids other unlisted = ground (arith, eq_iff id j, eq_iff j id)

  written_as-other :
      (id j : String) (r : Value) (w : W)
      → (id == j) ≡ false
      → table (written_as admin r id w).1 j ≡ table w j
  written_as-other id j r w other =
      (written_as-Keeps admin laws (λ k. (id == k) ≡ false) r id (λ k p. p)).at w j other

  written_entered :
      (id j : String) (r : Value) (w : W) (attempted : List String) (before : W)
      → text_at "id" r ≡ ok id
      → (table w j ≡ table before j) ⊎ (contains attempted j ≡ true)
      → (table (written_as admin r id w).1 j ≡ table before j)
        ⊎ (contains (id ∷ attempted) j ≡ true)
  written_entered id j r w attempted before named entered = elim (Bool-cases (j == id)) [
    | inl same ↦ inr (ground arith)
    | inr other ↦ elim entered [
      | inr listed ↦ inr (ground arith)
      | inl kept ↦ inl (written_as-other id j r w (ground (arith, eq_iff j id, eq_iff id j)) ∙ kept)
    ]
  ]

  module _ (execute_probe : Value) where
    check_public-Keeps :
        (P : String → Type 0) → Keeps admin laws P (check_public admin execute_probe)
    unfolding check_public
    check_public-Keeps P = Keeps-bind admin laws P _ _ (Keeps-probe admin laws P _ _ _) (λ mcp.
        Keeps-bind admin laws P _ _ (Keeps-check admin laws P _ _) (λ _.
          Keeps-bind admin laws P _ _ (Keeps-probe admin laws P _ _ _) (λ metadata.
            Keeps-bind admin laws P _ _ (Keeps-check admin laws P _ _) (λ _.
              Keeps-bind admin laws P _ _ (Keeps-probe admin laws P _ _ _)
                (λ execute. Keeps-check admin laws P _ _)))))

    -- The loop: an entry that differs from the one before is of an id that was attempted, and
    -- each attempted id has been read.
    pub record IsTracked (before : W) (d : Dict Value) (x : Tried) : Type 0 where
      pub entered : (j : String) → (table x.1.1 j ≡ table before j) ⊎ (contains x.0 j ≡ true)
      pub known : All (IsKnown d) x.0

    pub attempt-IsTracked :
        (before : W) (d : Dict Value) (routes : List Value) (attempted : List String) (w : W)
        → All (λ (r : Value). (id : String) → text_at "id" r ≡ ok id → IsKnown d id) routes
        → ((j : String) → (table w j ≡ table before j) ⊎ (contains attempted j ≡ true))
        → All (IsKnown d) attempted
        → IsTracked before d (attempt admin execute_probe routes attempted w)
    unfolding attempt
    attempt-IsTracked before d [] attempted w covers entered known = record {
      entered = λ j. elim (entered j) [
        | inl same ↦ inl ((check_public-Keeps (λ _. Unit)).at w j tt ∙ same)
        | inr listed ↦ inr listed
      ];
      known = known;
    }
    attempt-IsTracked before d (r ∷ rs) attempted w covers entered known =
        for_id-All (IsTracked before d) attempted (text_at "id" r) w _
          (λ e. record { entered = entered; known = known })
          (λ id named.
            let entered' =
              λ (j : String). written_entered id j r w attempted before named (entered j) in
            stopped-All (IsTracked before d) (id ∷ attempted) (written_as admin r id w) _
              (λ e. record { entered = entered'; known = (covers.0 id named, known) })
              (λ _.
                attempt-IsTracked before d rs (id ∷ attempted) (written_as admin r id w).1 covers.1
                  entered' (covers.0 id named, known)))

    pub attempt-keeps :
        (j : String) (routes : List Value) (attempted : List String) (w : W)
        → IsOther routes j
        → table (attempt admin execute_probe routes attempted w).1.1 j ≡ table w j
    unfolding attempt
    attempt-keeps j [] attempted w other = (check_public-Keeps (λ _. Unit)).at w j tt
    attempt-keeps j (r ∷ rs) attempted w other =
        for_id-All (λ x. table x.1.1 j ≡ table w j) attempted (text_at "id" r) w _ (λ e. refl)
          (λ id named.
            let kept = written_as-other id j r w (other.0 id named) in
            stopped-All (λ x. table x.1.1 j ≡ table w j) (id ∷ attempted) (written_as admin r id w)
              _ (λ e. kept)
              (λ _. attempt-keeps j rs (id ∷ attempted) (written_as admin r id w).1 other.1 ∙ kept))

    pub attempt-unlisted :
        (j : String) (routes : List Value) (attempted : List String) (w : W)
        → IsOther routes j
        → contains attempted j ≡ false
        → contains (attempt admin execute_probe routes attempted w).0 j ≡ false
    unfolding attempt
    attempt-unlisted j [] attempted w other unlisted = unlisted
    attempt-unlisted j (r ∷ rs) attempted w other unlisted =
        for_id-All (λ x. contains x.0 j ≡ false) attempted (text_at "id" r) w _ (λ e. unlisted)
          (λ id named.
            let unlisted' = unlisted-cons id j attempted (other.0 id named) unlisted in
            stopped-All (λ x. contains x.0 j ≡ false) (id ∷ attempted) (written_as admin r id w) _
              (λ e. unlisted')
              (λ _.
                attempt-unlisted j rs (id ∷ attempted) (written_as admin r id w).1 other.1
                  unlisted'))

    pub attempt-IsInstalled :
        (routes : List Value) (attempted : List String) (w : W)
        → HaveOwnIds routes
        → (attempt admin execute_probe routes attempted w).1.0 ≡ ok tt
        → All (IsInstalled (table (attempt admin execute_probe routes attempted w).1.1)) routes
    unfolding attempt
    attempt-IsInstalled [] attempted w own = λ _. tt
    attempt-IsInstalled (r ∷ rs) attempted w own =
        for_id-All (λ x. x.1.0 ≡ ok tt → All (IsInstalled (table x.1.1)) (r ∷ rs)) attempted
          (text_at "id" r) w _ (λ e h. absurd (ground arith))
          (λ id named.
            stopped-All (λ x. x.1.0 ≡ ok tt → All (IsInstalled (table x.1.1)) (r ∷ rs))
              (id ∷ attempted) (written_as admin r id w) _ (λ e h. absurd (ground arith))
              (λ done h. (
                IsInstalled-same (table (written_as admin r id w).1) _ r
                    (λ k named'.
                      attempt-keeps k rs (id ∷ attempted) (written_as admin r id w).1
                        (own.0 k named'))
                    (written_as-IsInstalled admin laws r id w named done),
                attempt-IsInstalled rs (id ∷ attempted) (written_as admin r id w).1 own.1 h,
              )))
