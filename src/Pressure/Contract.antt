-- ===== src/Pressure/Contract.antt =====
-- What the controller promises its callers: pauses, replays, refusals, closed decisions, capacity.
use ouf_api_gateway.Base.{
  eq_iff, ℕ, ◌+◌, ◌≤◌, ◌≡◌, ◌⊎◌, inl, inr, refl, true, false, none, some, String, ok, arith,
  Bool-cases, Option-cases, string_eq, nat_eq, beq_refl, option_eq, length,
}
use ouf_api_gateway.Base.Dict.{lookup, lookup-insert, length-insert}
use ouf_api_gateway.Pressure.Floats.{Floats, IsOrdered}
use ouf_api_gateway.Pressure.Transition.{
  paused, Frame, Sample, signals, is_hard, is_low, held_since, advance, seconds,
}
use ouf_api_gateway.Pressure.Decision.{
  new_frame, is_fresh, Table, Decision, judge, write, decision, register_scope, max_scopes,
}
use ouf_api_gateway.Pressure.Accepted.{judge-Accepted}

module _ (F : Floats) (I : IsOrdered F) where
  hard-not-low : (o : Sample F) → is_hard F o ≡ true → is_low F o ≡ false
  unfolding is_hard is_low
  hard-not-low o h =
      ground (arith, I.trans F.nine_tenths o.capacity_fraction F.seven_tenths, I.seven-lt-nine)

  -- An accepted sample with a hard signal (capacity at 0.9 or more, the dependency away for 300
  -- seconds, or a backlog of 900 seconds at capacity 0.7 or more) pauses the scope whatever its
  -- mode was: no slots, and no low signal running at the instant of the sample.
  pub judge-hard :
      (expected : ℕ) (f : Frame) (o : Sample F) (mark : String) (f' : Frame)
      → judge F expected f o mark ≡ ok (some f')
      → is_hard F o ≡ true
      → (f'.mode ≡ paused)
        × (f'.slots ≡ 0)
        × (f'.last_observed_at ≡ some o.observed)
        × (f'.low_since ≡ none)
  unfolding write signals advance held_since
  judge-hard expected f o mark f' j h =
      let a = judge-Accepted F expected f o mark f' j in
      rw a.written (ground (arith, a.moved), ground (arith, a.moved), refl, rw (hard-not-low o h))

module _ (F : Floats) where
  -- A sample on the frame that it left, under any expected version, changes nothing and is not
  -- refused.
  pub judge_again :
      (expected again : ℕ) (f : Frame) (o : Sample F) (mark : String) (f' : Frame)
      → judge F expected f o mark ≡ ok (some f')
      → judge F again f' o mark ≡ ok none
  unfolding judge write
  judge_again expected again f o mark f' j =
      let a = judge-Accepted F expected f o mark f' j in
      rw a.written
        (ground (arith, a.profile, beq_refl f.profile, beq_refl o.observed, beq_refl mark))

-- A decision never authorises execution nor renews a retry budget; it offers slots only while the
-- last observation is between 5 seconds ahead of the clock and 30 seconds behind it, and is
-- UNKNOWN with no slots otherwise.
pub decision_closed :
    (now : ℕ) (scope_ref : String) (table : Table) (d : Decision)
    → decision now scope_ref table ≡ ok d
    → (d.execution_authorized ≡ false)
      × (d.retry_budget_renewed ≡ false)
      × (((d.mode ≡ none) × (d.business_slots ≡ 0))
          ⊎ ((f : Frame) × (last : ℕ) × (lookup scope_ref table ≡ some f)
              × (f.last_observed_at ≡ some last)
              × (d.business_slots ≡ f.slots)
              × (last ≤ now + seconds 5)
              × (now ≤ last + seconds 30)))
unfolding decision
decision_closed now k table d h = elim (Option-cases (lookup k table)) [
  | inl e ↦ absurd (ground arith)
  | inr (f, e) ↦ elim (Option-cases f.last_observed_at) [
    | inl never ↦ (ground arith, ground arith, inl (ground arith, ground arith))
    | inr (last, seen) ↦ elim (Bool-cases (is_fresh now f)) [
      | inl fresh ↦ (
        ground arith,
        ground arith,
        inr (f, last, e, seen, ground arith, ground arith, ground arith),
      )
      | inr stale ↦ (ground arith, ground arith, inl (ground arith, ground arith))
    ]
  ]
]

-- Registering keeps the table within 1024 scopes, leaves every other scope alone, and never
-- resets a scope that is registered.
pub register_scope-bounded :
    (scope_ref other : String) (f : Frame) (table : Table)
    → length table ≤ max_scopes
    → let table' = (register_scope scope_ref table).1 in
      (length table' ≤ max_scopes) × (lookup other table ≡ some f → lookup other table' ≡ some f)
unfolding register_scope
register_scope-bounded k j f table h = elim (Option-cases (lookup k table)) [
  | inl e ↦ (
    ground (arith, length-insert k new_frame table),
    λ q. ground (arith, lookup-insert k j new_frame table, eq_iff k j),
  )
  | inr (g, e) ↦ (ground arith, λ q. ground arith)
]
