-- ===== src/Incidents/History.antt =====
-- The operations of tools/operational_incidents.py as steps, with the history that
-- tools/operational_cursor.py keeps of them.
use mathlib.Core.Path.{subst}
use mathlib.Core.Option.{some-injective}
use ouf_api_gateway.Base.{
  ◌⊎◌, ◌≤◌, ◌≡◌, ◌≢◌, refl, sym, ap, ◌∙◌, inl, inr, Option, none, some, String, List, [], ◌∷◌, ok,
  arith, Option-cases, Bool-cases, ◌==◌, string_eq, eq_iff, eq_refl, if◌then◌else◌,
}
use ouf_api_gateway.Base.Dict.{lookup, lookup-insert}
use ouf_api_gateway.Incidents.Store.{
  update, Lifecycle, opened, recovering, resolved, OperationalIncident, Store, Report, first_row,
  seen_again, reported, put, update, updated, open_incident, is_recovering, is_resolved,
  recovering_incident, resolve_incident,
}

-- A resolved incident was resolved when it was last seen; another has no such time.
abbrev pub ResolvedAt : Lifecycle → Option String → String → Type 0
ResolvedAt resolved at last = at ≡ some last
ResolvedAt opened at last = at ≡ none
ResolvedAt recovering at last = at ≡ none

pub record IsRow (key : String) (r : OperationalIncident) : Type 0 where
  pub own_key : r.dedup_key ≡ key
  pub counted : 1 ≤ r.occurrence_count
  pub resolution : ResolvedAt r.lifecycle_state r.resolved_at r.last_seen_at
  pub platform : r.visibility_class ≡ "RESTRICTED_OPERATIONAL"

-- The newest transition of an incident, the row that the cursor's join finds.
unfoldable pub latest : String → List OperationalIncident → Option OperationalIncident
latest id [] = none
latest id (t ∷ ts) = if t.incident_id == id then some t else latest id ts

pub record IsConsistent (st : Store) : Type 0 where
  pub row : (k : String) (r : OperationalIncident) → lookup k st.incidents ≡ some r → IsRow k r
  pub distinct :
      (j k : String) (r s : OperationalIncident)
      → lookup j st.incidents ≡ some r
      → lookup k st.incidents ≡ some s
      → r.incident_id ≡ s.incident_id
      → j ≡ k
  pub current :
      (k : String) (r : OperationalIncident)
      → lookup k st.incidents ≡ some r
      → latest r.incident_id st.transitions ≡ some r

-- An id that no row has.
abbrev pub IsFresh : String → Store → Type 0
IsFresh id st =
    (k : String) (r : OperationalIncident) → lookup k st.incidents ≡ some r → r.incident_id ≢ id

module _ (key : String) (new : OperationalIncident) (st : Store) where
  lookup-put :
      (k : String) (r : OperationalIncident)
      → lookup k (put key new st).incidents ≡ some r
      → ((k ≡ key) × (r ≡ new)) ⊎ ((k ≢ key) × (lookup k st.incidents ≡ some r))
  unfolding put
  lookup-put k r h =
      let q = lookup-insert key k new st.incidents in
      elim (Bool-cases (key == k)) [
        | inl on ↦
            let q' = rw on at q in
            inl (sym ((eq_iff key k).0 on), some-injective r new (sym h ∙ q'))
        | inr off ↦
            let q' = rw off at q in inr ((λ e. absurd (ground (arith, eq_iff key k))), sym q' ∙ h)
      ]

  -- Another row than those of the same key has another id.
  put-IsConsistent :
      IsConsistent st
      → IsRow key new
      → ((k : String) (r : OperationalIncident)
          → lookup k st.incidents ≡ some r
          → r.incident_id ≡ new.incident_id
          → k ≡ key)
      → IsConsistent (put key new st)
  unfolding put latest
  put-IsConsistent c w own = record {
    row = λ k r h. elim (lookup-put k r h) [
      | inl (e, f) ↦ rw (e, f) w
      | inr (n, old) ↦ c.row k r old
    ];
    distinct = λ j k r s h i e. elim (lookup-put j r h) [
      | inl (je, f) ↦ elim (lookup-put k s i) [
        | inl (ke, g) ↦ je ∙ sym ke
        | inr (n, old) ↦
            je ∙ sym (own k s old (sym e ∙ ap (λ (x : OperationalIncident). x.incident_id) f))
      ]
      | inr (m, older) ↦ elim (lookup-put k s i) [
        | inl (ke, g) ↦
            own j r older (e ∙ ap (λ (x : OperationalIncident). x.incident_id) g) ∙ sym ke
        | inr (n, old) ↦ c.distinct j k r s older old e
      ]
    ];
    current = λ k r h. elim (lookup-put k r h) [
      | inl (e, f) ↦ rw f (ground (arith, eq_refl new.incident_id))
      | inr (n, old) ↦ elim (Bool-cases (new.incident_id == r.incident_id)) [
        | inl same ↦ absurd (n (own k r old (sym ((eq_iff new.incident_id r.incident_id).0 same))))
        | inr other ↦ rw other (c.current k r old)
      ]
    ];
  }

reported-IsRow :
    (id now : String) (r : Report) (old : Option OperationalIncident)
    → r.visibility_class ≡ "RESTRICTED_OPERATIONAL"
    → ((o : OperationalIncident) → old ≡ some o → IsRow r.dedup_key o)
    → IsRow r.dedup_key (reported id now r old)
unfolding reported first_row seen_again
reported-IsRow id now r none v h = record {
  own_key = refl;
  counted = omega arith;
  resolution = refl;
  platform = v;
}
reported-IsRow id now r (some o) v h = record {
  own_key = (h o refl).own_key;
  counted = omega arith;
  resolution = refl;
  platform = v;
}

reported_id :
    (id now : String) (r : Report) (st : Store)
    → IsConsistent st
    → IsFresh id st
    → (k : String) (x : OperationalIncident) → lookup k st.incidents ≡ some x
    → x.incident_id ≡ (reported id now r (lookup r.dedup_key st.incidents)).incident_id
    → k ≡ r.dedup_key
unfolding reported first_row seen_again
reported_id id now r st c fresh k x h e = elim (Option-cases (lookup r.dedup_key st.incidents)) [
  | inl q ↦ absurd (fresh k x h (let e' = rw (q, reported) at e in e'))
  | inr (o, q) ↦ c.distinct k r.dedup_key x o h q (let e' = rw (q, reported) at e in e')
]

open_incident-put :
    (id now : String) (r : Report) (st st' : Store) (row : OperationalIncident)
    → open_incident id now r st ≡ ok (st', row)
    → (row ≡ reported id now r (lookup r.dedup_key st.incidents))
      × (st' ≡ put r.dedup_key (reported id now r (lookup r.dedup_key st.incidents)) st)
      × (r.visibility_class ≡ "RESTRICTED_OPERATIONAL")
unfolding open_incident
open_incident-put id now r st st' row h =
    (ground arith, ground arith, ground (arith, eq_iff r.visibility_class "RESTRICTED_OPERATIONAL"))

open_incident-IsConsistent :
    (id now : String) (r : Report) (st st' : Store) (row : OperationalIncident)
    → IsConsistent st
    → IsFresh id st
    → open_incident id now r st ≡ ok (st', row)
    → IsConsistent st'
open_incident-IsConsistent id now r st st' row c fresh h =
    let (e, f, v) = open_incident-put id now r st st' row h in
    rw f (
      put-IsConsistent r.dedup_key (reported id now r (lookup r.dedup_key st.incidents)) st c
        (reported-IsRow id now r (lookup r.dedup_key st.incidents) v (λ o q. c.row r.dedup_key o q))
        (reported_id id now r st c fresh))

module _ (f : OperationalIncident → OperationalIncident) (key : String) where
  update-IsConsistent :
      ((r : OperationalIncident) → IsRow key r → IsRow key (f r))
      → ((r : OperationalIncident) → (f r).incident_id ≡ r.incident_id)
      → (st : Store) → IsConsistent st
      → IsConsistent (update f key st).0
  update-IsConsistent keeps same st c = elim (Option-cases (lookup key st.incidents)) [
    | inl q ↦ subst (λ o. IsConsistent (updated f key st o).0) (sym q) c
    | inr (old, q) ↦
        subst (λ o. IsConsistent (updated f key st o).0) (sym q)
          (put-IsConsistent key (f old) st c (keeps old (c.row key old q))
            (λ k r h e. c.distinct k key r old h q (e ∙ same old)))
  ]

-- One operation of the store; a report that opens an incident has a new id.
pub data Step (st : Store) : Store → Type 0 where
  reports :
      (id now : String) (r : Report) (st' : Store) (row : OperationalIncident)
      → IsFresh id st
      → open_incident id now r st ≡ ok (st', row)
      → Step st st'
  recovers :
      (now key impact_summary : String) → Step st (recovering_incident now key impact_summary st).0
  resolves :
      (now key impact_summary : String) → Step st (resolve_incident now key impact_summary st).0

abbrev pub empty_store : Store
empty_store = record { incidents = []; transitions = [] }

pub data Reachable : Store → Type 0 where
  initial : Reachable empty_store
  next : (st st' : Store) → Reachable st → Step st st' → Reachable st'

Step-IsConsistent : (st st' : Store) → IsConsistent st → Step st st' → IsConsistent st'
unfolding recovering_incident resolve_incident is_recovering is_resolved
Step-IsConsistent st _ c (reports id now r st' row fresh h) =
    open_incident-IsConsistent id now r st st' row c fresh h
Step-IsConsistent st _ c (recovers now key s) =
    update-IsConsistent (is_recovering now s) key
      (λ r w. record {
        own_key = w.own_key;
        counted = w.counted;
        resolution = refl;
        platform = w.platform;
      })
      (λ r. refl) st c
Step-IsConsistent st _ c (resolves now key s) =
    update-IsConsistent (is_resolved now s) key
      (λ r w. record {
        own_key = w.own_key;
        counted = w.counted;
        resolution = refl;
        platform = w.platform;
      })
      (λ r. refl) st c

-- Every store that the operations reach, where each report brings an id that no row has, is
-- consistent: each row stands under its own key, has been seen at least once, and has a time of
-- resolution exactly where it is resolved; two keys have two incident ids; and the newest
-- transition of an incident in the history is its current row.
pub Reachable-IsConsistent : (st : Store) → Reachable st → IsConsistent st
unfolding lookup
Reachable-IsConsistent _ initial = record {
  row = λ k r h. absurd (ground arith);
  distinct = λ j k r s h i e. absurd (ground arith);
  current = λ k r h. absurd (ground arith);
}
Reachable-IsConsistent _ (next st st' r s) =
    Step-IsConsistent st st' (Reachable-IsConsistent st r) s
