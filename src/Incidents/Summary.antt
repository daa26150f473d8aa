-- ===== src/Incidents/Summary.antt =====
-- What a listing and a summary say of the table.
use Prim.Native.Nat.{min}
use mathlib.Core.Path.{subst}
use ouf_api_gateway.Base.{
  ℕ, suc, zero, ◌≤◌, ◌+◌, ◌≡◌, ◌↔◌, refl, inl, inr, Bool, true, false, ◌&&◌, Option, none, String,
  List, [], ◌∷◌, ok, arith, Outcome-cases, ok-injective, Bool-cases, length, take, select, count,
  ltb,
}
use ouf_api_gateway.Incidents.Store.{
  Lifecycle, opened, recovering, resolved, OperationalIncident, Store,
}
use ouf_api_gateway.Incidents.Listing.{
  healthy, Summary, insert_before, is_before, prioritized, list_incidents, summary, rows, is_since,
  has_state, is_in, status_of,
}

length-insert_before :
    (a : OperationalIncident) (xs : List OperationalIncident)
    → length (insert_before a xs) ≡ length xs + 1
unfolding insert_before
length-insert_before a [] = omega arith
length-insert_before a (x ∷ xs) = elim (Bool-cases (is_before a x)) [
  | inl before ↦ rw before (omega arith)
  | inr after ↦ rw after (omega (arith, length-insert_before a xs))
]

length-prioritized : (xs : List OperationalIncident) → length (prioritized xs) ≡ length xs
unfolding prioritized
length-prioritized [] = refl
length-prioritized (x ∷ xs) =
    omega (arith, length-insert_before x (prioritized xs), length-prioritized xs)

length-select :
    (p : OperationalIncident → Bool) (xs : List OperationalIncident)
    → length (select p xs) ≡ count p xs
length-select p [] = refl
length-select p (x ∷ xs) = ground (arith, length-select p xs)

module _ {ℓ} {A : Type ℓ} where
  length-take-min : (n : ℕ) (xs : List A) → length (take n xs) ≡ min n (length xs)
  length-take-min zero xs = omega arith
  length-take-min (suc n) [] = omega arith
  length-take-min (suc n) (x ∷ xs) = omega (arith, length-take-min n xs)

length-list_incidents :
    (state : Option Lifecycle) (limit : ℕ) (since : Option String) (st : Store)
    (items : List OperationalIncident)
    → list_incidents state limit since st ≡ ok items
    → (limit ≤ 200)
      × (length items
          ≡ min limit (count (λ r. has_state state r && is_since since r) (rows st.incidents)))
unfolding list_incidents
length-list_incidents state limit since st items h =
    let found = select (λ r. has_state state r && is_since since r) (rows st.incidents) in
    (
      ground arith,
      ground (
        arith,
        length-take-min limit (prioritized found),
        length-prioritized found,
        length-select (λ r. has_state state r && is_since since r) (rows st.incidents),
      ),
    )

-- Nothing of the listed time is open or recovering.
abbrev pub AllResolved : Option String → List OperationalIncident → Type 0
AllResolved since [] = Unit
AllResolved since (r ∷ rs) =
    (is_since since r ≡ true → r.lifecycle_state ≡ resolved) × AllResolved since rs

module _ (since : Option String) where
  abbrev counted : Lifecycle → List OperationalIncident → ℕ
  counted s rs = count (λ r. is_since since r && is_in s r.lifecycle_state) rs

  state_cases :
      (s : Lifecycle) → (is_in opened s ≡ false) → (is_in recovering s ≡ false) → s ≡ resolved
  unfolding is_in
  state_cases opened a b = absurd (ground arith)
  state_cases recovering a b = absurd (ground arith)
  state_cases resolved a b = refl

  none_counted :
      (rs : List OperationalIncident)
      → counted opened rs ≡ 0
      → counted recovering rs ≡ 0
      → AllResolved since rs
  none_counted [] a b = tt
  none_counted (r ∷ rs) a b = (
    (λ on. state_cases r.lifecycle_state (ground arith) (ground arith)),
    none_counted rs (ground arith) (ground arith),
  )

  all_resolved :
      (rs : List OperationalIncident)
      → AllResolved since rs
      → (counted opened rs ≡ 0) × (counted recovering rs ≡ 0)
  unfolding is_in
  all_resolved [] h = (refl, refl)
  all_resolved (r ∷ rs) (h, hs) = elim (Bool-cases (is_since since r)) [
    | inr off ↦ let (a, b) = all_resolved rs hs in rw off (omega (arith, a), omega (arith, b))
    | inl on ↦ let (a, b) = all_resolved rs hs in rw (on, h on) (omega (arith, a), omega (arith, b))
  ]

status_healthy : (a b : ℕ) → (status_of a b ≡ healthy) ↔ ((a ≡ 0) × (b ≡ 0))
status_healthy a b = (λ h. (ground arith, ground arith), λ h. ground arith)

-- What a summary reports of the rows.
abbrev pub Reports : ℕ → Option String → List OperationalIncident → Summary → Type 0
Reports limit since all_rows s =
    ((s.status ≡ healthy) ↔ AllResolved since all_rows)
    × (length s.items ≡ min limit (count (is_since since) all_rows))
    × (limit ≤ 200)
    × ((s.truncated ≡ true) ↔ (limit + 1 ≤ count (is_since since) all_rows))

-- A summary is healthy exactly where no incident of its time is open or recovering, whatever the
-- limit of the listing; it lists as many incidents as the limit allows, at most 200, and says that
-- it is truncated exactly where there are more.
pub summary-healthy :
    (limit : ℕ) (since : Option String) (st : Store) (s : Summary)
    → summary limit since st ≡ ok s
    → Reports limit since (rows st.incidents) s
unfolding summary
summary-healthy limit since st s h = elim (Outcome-cases (list_incidents none limit since st)) [
  | inr (e, q) ↦ absurd (let h' = rw q at h in ground arith)
  | inl (items, q) ↦
      let h' = rw q at h in
      let (bound, len) = length-list_incidents none limit since st items q in
      let all_rows = rows st.incidents in
      let made : Summary = record {
        status = status_of (counted since opened all_rows) (counted since recovering all_rows);
        open_incidents = counted since opened all_rows;
        recovering_incidents = counted since recovering all_rows;
        items = items;
        truncated = ltb (length items) (count (is_since since) all_rows);
      } in
      let same : made ≡ s = ok-injective h' in
      subst (Reports limit since all_rows) same (
        (
          (λ e.
              let (a, b) =
                (status_healthy (counted since opened all_rows)
                    (counted since recovering all_rows)).0
                  e in
              none_counted since all_rows a b),
          (λ w.
              (status_healthy (counted since opened all_rows) (counted since recovering all_rows)).1
                (all_resolved since all_rows w)),
        ),
        len,
        bound,
        ((λ e. ground (arith, len)), (λ e. ground (arith, len))),
      )
]
