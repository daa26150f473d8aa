-- ===== src/Cursor/Bounds.antt =====
-- The capacity of the sessions in `_capture` of tools/operational_cursor.py.
use ouf_api_gateway.Base.{
  ℕ, ◌+◌, ◌≤◌, ◌≡◌, refl, sym, inl, inr, Bool, true, Option, String, List, [], ◌∷◌, ok, arith,
  Outcome-cases, Option-cases, Bool-cases, length, select, ◌≠◌, string_eq, All, All-select,
}
use mathlib.Core.Path.{subst}
use ouf_api_gateway.Incidents.Store.{OperationalIncident}
use ouf_api_gateway.Cursor.Snapshot.{
  Identity, Session, Cursors, Query, purge, first_expired, used_items, has_room, available_items,
  snapshot_rows, capture, is_gap,
}

-- At most 4096 sessions, of at most 200000 items together, at most 20000 in one.
pub record IsWithin (ss : List Session) : Type 0 where
  pub few : length ss ≤ 4096
  pub light : used_items ss ≤ 200000
  pub each : All (λ (s : Session). length s.items ≤ 20000) ss

module _ (p : Session → Bool) where
  length-select_le : (ss : List Session) → length (select p ss) ≤ length ss
  length-select_le [] = omega arith
  length-select_le (s ∷ ss) = ground (arith, length-select_le ss)

  used_items-select : (ss : List Session) → used_items (select p ss) ≤ used_items ss
  unfolding used_items
  used_items-select [] = omega arith
  used_items-select (s ∷ ss) = elim (Bool-cases (p s)) [
    | inl on ↦ rw on (omega (arith, used_items-select ss))
    | inr off ↦ rw off (omega (arith, used_items-select ss))
  ]

  select-IsWithin : (ss : List Session) → IsWithin ss → IsWithin (select p ss)
  select-IsWithin ss w = record {
    few = omega (arith, length-select_le ss, w.few);
    light = omega (arith, used_items-select ss, w.light);
    each = All-select p (λ (s : Session). length s.items ≤ 20000) ss w.each;
  }

purge-IsWithin :
    (now : String) (c : Cursors) → IsWithin c.sessions → IsWithin (purge now c).sessions
unfolding purge
purge-IsWithin now c w = elim (Option-cases (first_expired now c.sessions)) [
  | inl q ↦ rw (q, purge) w
  | inr (gone, q) ↦
      rw (q, purge) (select-IsWithin (λ (s : Session). s.session_id ≠ gone.session_id) c.sessions w)
]

available_items-bound :
    (limit : ℕ) (i : Identity) (ss : List Session) (n : ℕ)
    → available_items limit i ss ≡ ok n
    → (n ≤ 20000) × (used_items ss + n ≤ 200000)
unfolding available_items
available_items-bound limit i ss n h = (ground arith, ground arith)

has_room-few : (i : Identity) (ss : List Session) → has_room i ss ≡ true → length ss + 1 ≤ 4096
unfolding has_room
has_room-few i ss h = ground arith

-- A capture keeps the sessions within their capacity: at most 4096 of them, of at most 200000 items
-- together and 20000 in one; and the snapshot is the wanted rows of the history at its watermark,
-- all of them, none dropped for want of room.
pub capture-IsWithin :
    (sid token now expiry baseline : String) (q : Query) (i : Identity) (policy_ref : String)
    (lower : Option ℕ) (ts : List OperationalIncident) (c c' : Cursors)
    → IsWithin c.sessions
    → capture sid token now expiry baseline q i policy_ref lower ts c ≡ ok c'
    → IsWithin c'.sessions
      × ((s : Session) × (rest : List Session) × (c'.sessions ≡ s ∷ rest)
          × (s.items ≡ snapshot_rows q lower ts)
          × (s.watermark ≡ length ts))
unfolding capture used_items
capture-IsWithin sid token now expiry baseline q i policy_ref lower ts c c' w h =
    elim (Outcome-cases (available_items q.limit i (purge now c).sessions)) [
      | inr (e, p) ↦ absurd (let h' = rw p at h in ground arith)
      | inl (n, p) ↦
          let h' = rw p at h in
          let v = purge-IsWithin now c w in
          let (most, fits) = available_items-bound q.limit i (purge now c).sessions n p in
          let room : has_room i (purge now c).sessions ≡ true = ground arith in
          let small : length (snapshot_rows q lower ts) ≤ n = ground arith in
          let made : Session = record {
            session_id = sid;
            principal = i.principal;
            tenant = i.tenant;
            fingerprint = i.fingerprint;
            policy_ref = policy_ref;
            page_limit = q.limit;
            created_at = now;
            expires_at = expiry;
            history_gap = is_gap q.since baseline;
            watermark = length ts;
            items = snapshot_rows q lower ts;
          } in
          let same : made ∷ (purge now c).sessions ≡ c'.sessions = ground arith in
          (
            subst IsWithin same (record {
              few = omega (arith, has_room-few i (purge now c).sessions room);
              light = omega (arith, small, fits);
              each = (omega (arith, small, most), v.each);
            }),
            (made, (purge now c).sessions, sym same, refl, refl),
          )
    ]
