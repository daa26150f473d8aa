-- ===== src/Deploy/Status/Read.antt =====
-- The first loop of `apply_routes` of ops/apisix/deploy_status_execute.py: the state before its writes.
use mathlib.Core.Path.{subst}
use ouf_api_gateway.Base.{
  Option, some, String, List, [], ◌∷◌, ◌==◌, string_eq, ◌≡◌, sym, ap, ◌∙◌, ◌⊎◌, inl, inr, ok,
  ok-injective, Bool-cases, All, eq_iff, arith, if◌then◌else◌,
}
use ouf_api_gateway.Base.Dict.{Dict, insert, lookup, lookup-insert, AllEntries, AllEntries-insert}
use ouf_api_gateway.Document.{Value}
use ouf_api_gateway.Deploy.{Admin, lift}
use ouf_api_gateway.Deploy.Routes.{text_at, snapshot_one}
use ouf_api_gateway.Deploy.Table.{IsAdmin}
use ouf_api_gateway.Deploy.Keeps.{Keeps, Keeps-bind, Keeps-lift, snapshot_one-Keeps}
use ouf_api_gateway.Deploy.Restored.{IsOriginal}
use ouf_api_gateway.Deploy.Snapshots.{bind-ok, lifted-ok, snapshot_one-IsOriginal}
use ouf_api_gateway.Deploy.Status.{read_previous}

-- The snapshot has an entry for the name.
abbrev pub IsKnown : Dict Value → String → Type 0
IsKnown d j = (old : Value) × (lookup j d ≡ some old)

IsKnown-insert :
    (id : String) (old : Value) (d : Dict Value) (j : String)
    → (id ≡ j) ⊎ IsKnown d j
    → IsKnown (insert id old d) j
IsKnown-insert id old d j h = elim (Bool-cases (id == j)) [
  | inl same ↦ (old, lookup-insert id j old d ∙ ap (λ b. if b then some old else lookup j d) same)
  | inr other ↦ elim h [
    | inl q ↦ absurd (ground (arith, eq_iff id j))
    | inr (o, q) ↦
        (o, lookup-insert id j old d ∙ ap (λ b. if b then some old else lookup j d) other ∙ q)
  ]
]

module _ {W : Type 0} (admin : Admin W) {table : W → String → Option Value} {filled : Value → Value}
    (laws : IsAdmin admin table filled) where
  pub read_previous-Keeps :
      (P : String → Type 0) (routes : List Value) (previous : Dict Value)
      → Keeps admin laws P (read_previous admin routes previous)
  unfolding read_previous
  read_previous-Keeps P [] previous = Keeps-lift admin laws P _
  read_previous-Keeps P (r ∷ rs) previous =
      Keeps-bind admin laws P _ _ (Keeps-lift admin laws P _) (λ id.
        Keeps-bind admin laws P _ _ (snapshot_one-Keeps admin laws P id)
          (λ old. read_previous-Keeps P rs (insert id old previous)))

  -- What the first loop has read: entries of the table, one for each route's id.
  pub record IsRead (before : W) (routes : List Value) (previous d : Dict Value) : Type 0 where
    pub originals : AllEntries (λ k v. IsOriginal admin laws before (k, v)) d
    pub keeps : (j : String) → IsKnown previous j → IsKnown d j
    pub covers : All (λ (r : Value). (id : String) → text_at "id" r ≡ ok id → IsKnown d id) routes

  pub read_previous-IsRead :
      (before w : W) (routes : List Value) (previous d : Dict Value)
      → ((j : String) → table w j ≡ table before j)
      → AllEntries (λ k v. IsOriginal admin laws before (k, v)) previous
      → (read_previous admin routes previous w).0 ≡ ok d
      → IsRead before routes previous d
  unfolding read_previous
  read_previous-IsRead before w [] previous d same originals h =
      let q : previous ≡ d = ok-injective (lifted-ok _ w h) in
      subst (IsRead before [] previous) q
        (record { originals = originals; keeps = λ j k. k; covers = tt })
  read_previous-IsRead before w (r ∷ rs) previous d same originals h =
      let id = bind-ok (lift (text_at "id" r)) _ w h in
      let old = bind-ok (snapshot_one admin id.0) _ _ id.2 in
      let named = lifted-ok _ _ id.1 in
      let w1 = (lift (text_at "id" r) w).1 in
      let same1 =
        λ (j : String). (Keeps-lift admin laws (λ _. Unit) (text_at "id" r)).at w j tt ∙ same j in
      let original = snapshot_one-IsOriginal admin laws before id.0 w1 old.0 (same1 id.0) old.1 in
      let rest =
        read_previous-IsRead before (snapshot_one admin id.0 w1).1 rs (insert id.0 old.0 previous) d
          (λ j. (snapshot_one-Keeps admin laws (λ _. Unit) id.0).at w1 j tt ∙ same1 j)
          (AllEntries-insert _ id.0 old.0 previous original originals) old.2 in
      record {
        originals = rest.originals;
        keeps = λ j k. rest.keeps j (IsKnown-insert id.0 old.0 previous j (inr k));
        covers = (
          λ k q.
              rest.keeps k
                (IsKnown-insert id.0 old.0 previous k (inl (ok-injective (sym named ∙ q)))),
          rest.covers,
        );
      }
