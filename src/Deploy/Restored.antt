-- ===== src/Deploy/Restored.antt =====
-- The restoration of a snapshot: what a script's rollback leaves in the route table.
use mathlib.Core.Path.{subst}
use ouf_api_gateway.Base.{
  eq_iff, text_le, if◌then◌else◌, Bool, true, false, Option, none, some, some, String, List, [],
  ◌∷◌, ◌==◌, string_eq, ◌≡◌, refl, sym, Outcome, ok, raised, Option-cases, Bool-cases, ◌⊎◌, inl,
  inr, ◌∙◌, arith, All, ◌||◌, ap,
}
use ouf_api_gateway.Base.Text.{sort_by, insert_sorted}
use ouf_api_gateway.Base.Dict.{Dict}
use ouf_api_gateway.Document.{Value, null, truthy}
use ouf_api_gateway.Deploy.{DeployError, Method, put, delete, Reply, Admin, is_restored}
use ouf_api_gateway.Deploy.Routes.{reported, key_of, restore_each, restore}
use ouf_api_gateway.Deploy.Table.{IsAdmin}

abbrev pub has_entry : String → Dict Value → Bool
has_entry j [] = false
has_entry j (e ∷ d) = key_of e == j || has_entry j d

has_entry-insert_sorted :
    (j : String) (e : String × Value) (d : Dict Value)
    → has_entry j (insert_sorted key_of e d) ≡ has_entry j (e ∷ d)
unfolding insert_sorted
has_entry-insert_sorted j e [] = refl
has_entry-insert_sorted j e (x ∷ d) = ground (arith, has_entry-insert_sorted j e d)

has_entry-sort_by : (j : String) (d : Dict Value) → has_entry j (sort_by key_of d) ≡ has_entry j d
unfolding sort_by
has_entry-sort_by j [] = refl
has_entry-sort_by j (e ∷ d) =
    has_entry-insert_sorted j e (sort_by key_of d)
    ∙ ap (λ b. key_of e == j || b) (has_entry-sort_by j d)

All-insert_sorted :
    (Q : String × Value → Type 0) (e : String × Value) (d : Dict Value)
    → Q e
    → All Q d
    → All Q (insert_sorted key_of e d)
unfolding insert_sorted
All-insert_sorted Q e [] q qs = (q, tt)
All-insert_sorted Q e (x ∷ d) q (p, qs) = elim (Bool-cases (text_le (key_of e) (key_of x))) [
  | inl before ↦ rw before (q, (p, qs))
  | inr after ↦ rw after (p, All-insert_sorted Q e d q qs)
]

All-sort_by : (Q : String × Value → Type 0) (d : Dict Value) → All Q d → All Q (sort_by key_of d)
unfolding sort_by
All-sort_by Q [] qs = tt
All-sort_by Q (e ∷ d) (q, qs) = All-insert_sorted Q e (sort_by key_of d) q (All-sort_by Q d qs)

none_failed :
    (id : String) (b : Bool) (failures : List String)
    → (if b then failures else id ∷ failures) ≡ []
    → (b ≡ true) × (failures ≡ [])
none_failed id true failures h = (refl, h)
none_failed id false failures h = absurd (ground arith)

module _ {W : Type 0} (admin : Admin W) {table : W → String → Option Value} {filled : Value → Value}
    (laws : IsAdmin admin table filled) (before : W) where
  -- An entry of a snapshot of the table `before`.
  abbrev pub IsOriginal : String × Value → Type 0
  IsOriginal (id, old) = (table before id ≡ some old) ⊎ ((table before id ≡ none) × (old ≡ null))

  restored_one :
      (id : String) (old : Value) (w : W) (r : Reply)
      → IsOriginal (id, old)
      → (admin.route (if truthy old then put else delete) id old w).0 ≡ some r
      → is_restored (some r) ≡ true
      → table (admin.route (if truthy old then put else delete) id old w).1 id ≡ table before id
  restored_one id old w r (inl stored) q done =
      let t = laws.stored before id old stored in
      let q' : (admin.route put id old w).0 ≡ some r = let h = rw t at q in h in
      rw t (
        laws.put_stores id old w r q' (ground (arith, laws.put_answers id old w r q'))
        ∙ ap some (laws.stored_filled before id old stored)
        ∙ sym stored)
  restored_one id old w r (inr (absent, q0)) q done =
      let f : truthy old ≡ false = rw q0 refl in
      let q' : (admin.route delete id old w).0 ≡ some r = let h = rw f at q in h in
      rw f (
        laws.delete_removes id old w r q' (ground (arith, laws.delete_answers id old w r q'))
        ∙ sym absent)

  pub restore_each-other :
      (d : Dict Value) (w : W) (j : String)
      → has_entry j d ≡ false
      → table (restore_each admin d w).1 j ≡ table w j
  unfolding restore_each
  restore_each-other [] w j h = refl
  restore_each-other ((id, old) ∷ d) w j h =
      restore_each-other d (admin.route (if truthy old then put else delete) id old w).1 j
        (ground arith)
      ∙ laws.other_keeps (if truthy old then put else delete) id old w j (ground arith)

  -- Where each entry was answered, each name that differed and has an entry is as it was before.
  pub restore_each-restores :
      (d : Dict Value) (w : W)
      → All IsOriginal d
      → (restore_each admin d w).0 ≡ []
      → (j : String) → (table w j ≡ table before j) ⊎ (has_entry j d ≡ true)
      → table (restore_each admin d w).1 j ≡ table before j
  unfolding restore_each
  restore_each-restores [] w originals done j (inl same) = same
  restore_each-restores [] w originals done j (inr h) = absurd (ground arith)
  restore_each-restores ((id, old) ∷ d) w (original, originals) done j covered =
      elim (Option-cases (admin.route m id old w).0) [
        | inl q ↦ absurd (let h = rw q at done in ground arith)
        | inr (r, q) ↦
            let answers = none_failed id (is_restored (admin.route m id old w).0) _ done in
            let answered : is_restored (some r) ≡ true = let h = rw q at answers.0 in h in
            restore_each-restores d (admin.route m id old w).1 originals answers.1 j
              (elim (Bool-cases (id == j)) [
                | inl same ↦ inl (
                    subst (λ k. table (admin.route m id old w).1 k ≡ table before k)
                      ((eq_iff id j).0 same) (restored_one id old w r original q answered))
                | inr other ↦ elim covered [
                  | inl kept ↦ inl (laws.other_keeps m id old w j other ∙ kept)
                  | inr entered ↦ inr (ground arith)
                ]
              ])
      ]
    where
      m : Method
      m = if truthy old then put else delete

  abbrev pub Restores : Outcome DeployError (Unit {0}) × W → Type 0
  Restores (ok _, w) = (j : String) → table w j ≡ table before j
  Restores (raised e, w) = Unit

  pub restored-table :
      (x : Outcome DeployError (Unit {0}) × W)
      → x.0 ≡ ok tt
      → Restores x
      → (j : String) → table x.1 j ≡ table before j
  restored-table (ok _, w) q h = h
  restored-table (raised e, w) q h = absurd (ground arith)

  pub reported-Restores :
      (x : List String × W)
      → (x.0 ≡ [] → (j : String) → table x.1 j ≡ table before j)
      → Restores (reported admin x)
  reported-Restores ([], w) h = h refl
  reported-Restores (id ∷ ids, w) h = tt

  -- A restore that returns has brought the whole table back, where it differed at most at the entries.
  pub restore-Restores :
      (d : Dict Value) (w : W)
      → All IsOriginal d
      → ((j : String) → (table w j ≡ table before j) ⊎ (has_entry j d ≡ true))
      → Restores (restore admin d w)
  unfolding restore
  restore-Restores d w originals covered =
      reported-Restores (restore_each admin (sort_by key_of d) w) (λ done j.
        restore_each-restores (sort_by key_of d) w (All-sort_by IsOriginal d originals) done j
          (elim (covered j) [
            | inl same ↦ inl same
            | inr entered ↦ inr (has_entry-sort_by j d ∙ entered)
          ]))

  pub reported-world : (x : List String × W) → (reported admin x).1 ≡ x.1
  reported-world ([], w) = refl
  reported-world (id ∷ ids, w) = refl

  pub restore-other :
      (d : Dict Value) (w : W) (j : String)
      → has_entry j d ≡ false
      → table (restore admin d w).1 j ≡ table w j
  unfolding restore
  restore-other d w j h =
      ap (λ w'. table w' j) (reported-world (restore_each admin (sort_by key_of d) w))
      ∙ restore_each-other (sort_by key_of d) w j (has_entry-sort_by j d ∙ h)
