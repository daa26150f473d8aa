-- ===== src/Pressure/Coherence.antt =====
-- What every frame satisfies between two calls, and that an accepted sample keeps it.
use ouf_api_gateway.Base.{
  Option-cases, Outcome, inr, inl, ok, raised, ℕ, ◌≡◌, ◌≢◌, Outcome-cases, ◌⊎◌, refl, Bool, true,
  false, Option, none, some, String, arith, Returns,
}
use ouf_api_gateway.Pressure.Floats.{Floats}
use ouf_api_gateway.Pressure.Transition.{
  Error, type_error, Mode, normal, cautious, paused, probe, recovering, Frame, Stage, Sample,
  Signals, signals, held_since, relax, advance,
}
use ouf_api_gateway.Base.Dict.{lookup, insert, lookup-insert}
use ouf_api_gateway.Base.Int.{ℤ, pos, negsuc}
use ouf_api_gateway.Pressure.Decision.{
  apply_sample, Table, PressureObservation, validate, stage_of, accept, judge, record_observation,
}

abbrev pub IsSome : Option ℕ → Type 0
IsSome o = (t : ℕ) × (o ≡ some t)

-- The slots of each mode, and the modes that carry an instant.
abbrev pub Fits : Mode → ℕ → Option ℕ → Type 0
Fits normal slots since = slots ≡ 8
Fits cautious slots since = slots ≡ 2
Fits paused slots since = slots ≡ 0
Fits probe slots since = (slots ≡ 1) × IsSome since
Fits recovering slots since = ((slots ≡ 2) ⊎ (slots ≡ 4)) × IsSome since

abbrev pub IsCoherent : Frame → Type 0
IsCoherent f = Fits f.mode f.slots f.stage_since

-- A signal that is low has an instant since which it is.
abbrev pub IsTimed : Signals → Type 0
IsTimed g = g.low ≡ true → IsSome g.low_since

held_since-IsSome : (gap : Bool) (t : ℕ) (since : Option ℕ) → IsSome (held_since true gap t since)
unfolding held_since
held_since-IsSome true t since = (t, refl)
held_since-IsSome false t none = (t, refl)
held_since-IsSome false t (some u) = (u, refl)

pub signals-IsTimed : (F : Floats) (f : Frame) (o : Sample F) → IsTimed (signals F f o)
unfolding signals
signals-IsTimed F f o h = rw h (held_since-IsSome _ o.observed f.low_since)

abbrev pub StageFits : Stage → Type 0
StageFits s = Fits s.mode s.slots s.stage_since

relax-Fits :
    (g : Signals) (m : Mode) (slots : ℕ) (since : Option ℕ)
    → (low : Option ℕ) → g.low_since ≡ low
    → (g.low ≡ true → IsSome low)
    → Fits m slots since
    → Returns StageFits (relax g m (record { mode = m; slots = slots; stage_since = since }))
unfolding relax
relax-Fits g normal slots since low e t h = h
relax-Fits g paused slots since none e t h = ground arith
relax-Fits g paused slots since (some u) e t h = ground arith
relax-Fits g cautious slots since none e t h = ground arith
relax-Fits g cautious slots since (some u) e t h = ground arith
relax-Fits g probe slots none low e t h = ground arith
relax-Fits g probe slots (some u) low e t h = ground arith
relax-Fits g recovering slots none low e t h = ground arith
relax-Fits g recovering slots (some u) low e t h = ground arith

pub advance-Fits :
    (g : Signals) (s : Stage) → IsTimed g → StageFits s → Returns StageFits (advance g s)
unfolding advance
advance-Fits g s t h =
    ground (arith, relax-Fits g s.mode s.slots s.stage_since g.low_since refl t h)

module _ (F : Floats) where
  pub accept-IsCoherent :
      (f : Frame) (o : Sample F) (mark : String)
      → IsCoherent f
      → Returns IsCoherent (accept F f o mark)
  unfolding accept
  accept-IsCoherent f o mark h =
      ground (arith, advance-Fits (signals F f o) (stage_of f) (signals-IsTimed F f o) h)

  pub judge-IsCoherent :
      (expected : ℕ) (f : Frame) (o : Sample F) (mark : String)
      → IsCoherent f
      → (judge F expected f o mark ≢ raised type_error)
        × ((f' : Frame) → judge F expected f o mark ≡ ok (some f') → IsCoherent f')
  unfolding judge
  judge-IsCoherent expected f o mark h = elim (Outcome-cases (accept F f o mark)) [
    | inl (f', e) ↦ (
      ground (arith, accept-IsCoherent f o mark h),
      λ g q. ground (arith, accept-IsCoherent f o mark h),
    )
    | inr (x, e) ↦ absurd (ground (arith, accept-IsCoherent f o mark h))
  ]

pub record IsCoherentTable (table : Table) : Type 0 where
  pub at : (k : String) (f : Frame) → lookup k table ≡ some f → IsCoherent f

module _ (F : Floats) where
  abbrev Keeps : Outcome Error (Unit {0}) × Table → Type 0
  Keeps (outcome, table) = (outcome ≢ raised type_error) × IsCoherentTable table

  insert-IsCoherentTable :
      (k : String) (f : Frame) (table : Table)
      → IsCoherent f
      → IsCoherentTable table
      → IsCoherentTable (insert k f table)
  insert-IsCoherentTable k f table c h = record {
    at = λ j g e. ground (arith, lookup-insert k j f table, h.at j g);
  }

  apply_sample-Keeps :
      (expected : ℕ) (k : String) (o : Sample F) (mark : String) (table : Table)
      → IsCoherentTable table
      → Keeps (apply_sample F expected k o mark table)
  unfolding apply_sample
  apply_sample-Keeps expected k o mark table h = elim (Option-cases (lookup k table)) [
    | inl e ↦ rw (e, apply_sample) (ground arith, h)
    | inr (f, e) ↦
        let (never, kept) = judge-IsCoherent F expected f o mark (h.at k f e) in
        elim (Outcome-cases (judge F expected f o mark)) [
          | inl (none, j) ↦ rw (e, j, apply_sample) (ground arith, h)
          | inl (some g, j) ↦
              rw (e, j, apply_sample) (ground arith, insert-IsCoherentTable k g table (kept g j) h)
          | inr (x, j) ↦ rw (e, j, apply_sample) (ground arith, h)
        ]
  ]

  validate-ne-type_error :
      (o : PressureObservation F) (now : ℕ) → validate F o now ≢ raised type_error
  unfolding validate
  validate-ne-type_error o now = ground arith

module _ (F : Floats) (fingerprint : PressureObservation F → String) where
  -- On a table of coherent frames no observation stops at `observed - None`, whatever its values
  -- and the version that it expects, and the table that `observe` leaves is coherent.
  pub record_observation-IsCoherentTable :
      (now : ℕ) (scope_ref : String) (o : PressureObservation F) (expected : ℤ) (table : Table)
      → IsCoherentTable table
      → let (outcome, table') = record_observation F fingerprint now scope_ref o expected table in
        (outcome ≢ raised type_error) × IsCoherentTable table'
  unfolding record_observation
  record_observation-IsCoherentTable now k o (negsuc v) table h = (ground arith, h)
  record_observation-IsCoherentTable now k o (pos v) table h =
      elim (Outcome-cases (validate F o now)) [
        | inl (sample, e) ↦
            rw (e, record_observation) (apply_sample-Keeps F v k sample (fingerprint o) table h)
        | inr (x, e) ↦
            rw (e, record_observation) (ground (arith, validate-ne-type_error F o now), h)
      ]
