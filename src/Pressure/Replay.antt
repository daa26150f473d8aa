-- ===== src/Pressure/Replay.antt =====
-- An observation that is sent again to tools/operational_pressure.py.
use mathlib.Core.Path.{subst}
use ouf_api_gateway.Base.{
  ℕ, ◌≡◌, refl, ◌∙◌, inl, inr, true, none, some, String, ok, arith, Option-cases, Outcome-cases,
  nat_eq, string_eq, option_eq, eq_refl,
}
use ouf_api_gateway.Base.Int.{ℤ, pos, negsuc}
use ouf_api_gateway.Base.Dict.{lookup, insert, lookup-insert}
use ouf_api_gateway.Pressure.Floats.{Floats}
use ouf_api_gateway.Pressure.Transition.{Frame, Sample}
use ouf_api_gateway.Pressure.Decision.{
  Table, PressureObservation, judge, accept, validate, apply_sample, record_observation, is_current,
}
use ouf_api_gateway.Pressure.Contract.{judge_again}

module _ (F : Floats) where
  replayed :
      (expected again : ℕ) (f : Frame) (o : Sample F) (mark : String)
      → judge F expected f o mark ≡ ok none
      → judge F again f o mark ≡ ok none
  unfolding judge
  replayed expected again f o mark h = elim (Outcome-cases (accept F f o mark)) [
    | inl (g, q) ↦ ground arith
    | inr (e, q) ↦ ground arith
  ]

  validate_again :
      (o : PressureObservation F) (now later observed : ℕ) (s : Sample F)
      → o.observed_at ≡ some observed
      → is_current later observed ≡ true
      → validate F o now ≡ ok s
      → validate F o later ≡ ok s
  unfolding validate
  validate_again o now later observed s at current h = ground arith

  apply_again :
      (expected again : ℕ) (scope_ref : String) (s : Sample F) (mark : String)
      (table table' after : Table)
      → apply_sample F expected scope_ref s mark table ≡ (ok tt, table')
      → lookup scope_ref after ≡ lookup scope_ref table'
      → apply_sample F again scope_ref s mark after ≡ (ok tt, after)
  unfolding apply_sample
  apply_again expected again scope_ref s mark table table' after h alike =
      elim (Option-cases (lookup scope_ref table)) [
        | inl q ↦ absurd (let h' = rw (q, apply_sample) at h in ground arith)
        | inr (f, q) ↦ elim (Outcome-cases (judge F expected f s mark)) [
          | inr (e, j) ↦ absurd (let h' = rw (q, j, apply_sample) at h in ground arith)
          | inl (none, j) ↦
              let h' = rw (q, j, apply_sample) at h in
              let same : table ≡ table' = ground arith in
              let there : lookup scope_ref after ≡ some f =
                alike ∙ subst (λ x. lookup scope_ref x ≡ some f) same q in
              let again_none = replayed expected again f s mark j in
              rw (there, again_none, apply_sample) refl
          | inl (some g, j) ↦
              let h' = rw (q, j, apply_sample) at h in
              let same : insert scope_ref g table ≡ table' = ground arith in
              let put : lookup scope_ref (insert scope_ref g table) ≡ some g =
                ground (arith, lookup-insert scope_ref scope_ref g table, eq_refl scope_ref) in
              let there : lookup scope_ref after ≡ some g =
                alike ∙ subst (λ x. lookup scope_ref x ≡ some g) same put in
              let again_none = judge_again F expected again f s mark g j in
              rw (there, again_none, apply_sample) refl
        ]
      ]

  module _ (fingerprint : PressureObservation F → String) where
    -- An observation that `observe` has recorded and that is sent again while it is current, as the
    -- last one of its scope and under any version that is not negative, is not refused and changes
    -- nothing, whatever has happened to other scopes in between.
    pub record_observation_again :
        (now later : ℕ) (scope_ref : String) (o : PressureObservation F) (expected : ℤ) (again : ℕ)
        (table table' after : Table) (observed : ℕ)
        → record_observation F fingerprint now scope_ref o expected table ≡ (ok tt, table')
        → lookup scope_ref after ≡ lookup scope_ref table'
        → o.observed_at ≡ some observed
        → is_current later observed ≡ true
        → record_observation F fingerprint later scope_ref o (pos again) after ≡ (ok tt, after)
    unfolding record_observation
    record_observation_again now later scope_ref o (negsuc v) again table table' after observed h
          alike at current =
        absurd (ground arith)
    record_observation_again now later scope_ref o (pos expected) again table table' after observed
          h alike at current =
        elim (Outcome-cases (validate F o now)) [
          | inr (e, q) ↦ absurd (let h' = rw (q, record_observation) at h in ground arith)
          | inl (s, q) ↦
              let h' = rw (q, record_observation) at h in
              let valid = validate_again o now later observed s at current q in
              rw (valid, record_observation)
                (apply_again expected again scope_ref s (fingerprint o) table table' after h' alike)
        ]
