-- ===== src/Pressure/Recovery.antt =====
-- How fast a scope comes back from a pause.
use ouf_api_gateway.Base.{
  ◌&&◌, ◌||◌, Bool-cases, ok, ℕ, ◌+◌, ◌≤◌, ◌<◌, ◌≡◌, ◌⊎◌, inl, inr, refl, Bool, true, false, Option,
  none, some, String, Yields, arith,
}
use ouf_api_gateway.Pressure.Floats.{Floats}
use ouf_api_gateway.Pressure.Transition.{
  has_elapsed, is_gap, is_low, under_pressure, Mode, normal, cautious, paused, probe, recovering,
  Frame, Stage, Sample, Signals, signals, seconds, held_since, relax, advance,
}
use ouf_api_gateway.Pressure.Decision.{write, is_behind, stage_of, judge}
use ouf_api_gateway.Pressure.Accepted.{judge-Accepted}
use ouf_api_gateway.Pressure.Coherence.{judge-IsCoherent, Fits, IsCoherent}

-- For a pause at instant `t`, what each later frame owes: `u` is its last observation.
abbrev Floor : ℕ → ℕ → Mode → ℕ → Option ℕ → Type 0
Floor t u normal slots since = t + seconds 210 ≤ u
Floor t u cautious slots since = t + seconds 150 ≤ u
Floor t u paused slots since = t ≤ u
Floor t u probe slots since = (s : ℕ) × (since ≡ some s) × (t + seconds 120 ≤ s) × (s ≤ u)
Floor t u recovering slots since =
    (s : ℕ) × (since ≡ some s)
    × (s ≤ u)
    × (((slots ≡ 2) × (t + seconds 150 ≤ s)) ⊎ ((slots ≡ 4) × (t + seconds 180 ≤ s)))

abbrev StageFloor : ℕ → ℕ → Stage → Type 0
StageFloor t u s = Floor t u s.mode s.slots s.stage_since

module _ (t u : ℕ) (g : Signals) (later : u < g.observed) where
  relax-Floor :
      (m : Mode) (slots : ℕ) (since : Option ℕ) (low : Option ℕ)
      → g.low_since ≡ low
      → ((l : ℕ) → low ≡ some l → t ≤ l)
      → Floor t u m slots since
      → Yields
          (StageFloor t g.observed)
          (relax g m (record { mode = m; slots = slots; stage_since = since }))
  unfolding relax
  relax-Floor normal slots since low e b h = ground arith
  relax-Floor paused slots since none e b h = ground arith
  relax-Floor paused slots since (some l) e b h = ground (arith, b l refl)
  relax-Floor cautious slots since none e b h = ground arith
  relax-Floor cautious slots since (some l) e b h = ground (arith, b l refl)
  relax-Floor probe slots since low e b h = ground arith
  relax-Floor recovering slots since low e b h = ground arith

  under_pressure-Floor :
      (m : Mode) (slots : ℕ) (since : Option ℕ)
      → Floor t u m slots since
      → StageFloor t g.observed
          (under_pressure m (record { mode = m; slots = slots; stage_since = since }))
  unfolding under_pressure
  under_pressure-Floor normal slots since h = ground arith
  under_pressure-Floor cautious slots since h = ground arith
  under_pressure-Floor paused slots since h = ground arith
  under_pressure-Floor probe slots since (s, e, a, b) = (s, e, a, omega arith)
  under_pressure-Floor recovering slots since h = ground arith

  advance-Floor :
      (s : Stage)
      → ((l : ℕ) → g.low_since ≡ some l → t ≤ l)
      → StageFloor t u s
      → Yields (StageFloor t g.observed) (advance g s)
  unfolding advance
  advance-Floor s b h =
      elim (Bool-cases (g.hard || (g.high && has_elapsed 90 g.observed g.high_since))) [
        | inl full ↦ rw full (ground arith)
        | inr free ↦ elim (Bool-cases g.high) [
          | inl high ↦ rw (free, high) (under_pressure-Floor s.mode s.slots s.stage_since h)
          | inr calm ↦
              rw (free, calm) (relax-Floor s.mode s.slots s.stage_since g.low_since refl b h)
        ]
      ]

held_since_ge :
    (t : ℕ) (on gap : Bool) (observed : ℕ) (since : Option ℕ)
    → t ≤ observed
    → ((l : ℕ) → since ≡ some l → t ≤ l)
    → (l : ℕ) → held_since on gap observed since ≡ some l
    → t ≤ l
unfolding held_since
held_since_ge t false gap observed since h b l e = ground arith
held_since_ge t true true observed since h b l e = ground arith
held_since_ge t true false observed none h b l e = ground arith
held_since_ge t true false observed (some u) h b l e = b l e

-- What is kept from the pause on.
abbrev Since : ℕ → Frame → Type 0
Since t f =
    (u : ℕ) × (f.last_observed_at ≡ some u)
    × (t ≤ u)
    × ((l : ℕ) → f.low_since ≡ some l → t ≤ l)
    × Floor t u f.mode f.slots f.stage_since

newer_lt :
    (observed : ℕ) (last : Option ℕ) (u : ℕ)
    → last ≡ some u
    → is_behind observed last ≡ false
    → u < observed
unfolding is_behind
newer_lt observed none u e h = ground arith
newer_lt observed (some v) u e h = ground arith

module _ (F : Floats) where
  judge-Since :
      (t expected : ℕ) (f : Frame) (o : Sample F) (mark : String) {f' : Frame}
      → Since t f
      → judge F expected f o mark ≡ ok (some f')
      → Since t f'
  unfolding signals write
  judge-Since t expected f o mark {f'} (u, last, le, b, floor) j =
      let a = judge-Accepted F expected f o mark f' j in
      let later : u < o.observed = newer_lt o.observed f.last_observed_at u last a.newer in
      let low =
        held_since_ge t (is_low F o) (is_gap o.observed f.last_observed_at) o.observed f.low_since
          (omega arith) b in
      let stage = advance-Floor t u (signals F f o) later (stage_of f) low floor in
      rw a.written (o.observed, refl, omega arith, low, rw a.moved at stage)

module _ (F : Floats) where
  -- The frames of one scope after any accepted samples.
  pub data Run (f : Frame) : Frame → Type 0 where
    here : Run f f
    next :
        {g h : Frame} (expected : ℕ) (o : Sample F) (mark : String)
        → Run f g
        → judge F expected g o mark ≡ ok (some h)
        → Run f h

  Run-Since : {f g : Frame} (t : ℕ) → Since t f → Run f g → Since t g
  Run-Since t s here = s
  Run-Since t s (next expected o mark r j) = judge-Since F t expected _ o mark (Run-Since t s r) j

  Run-IsCoherent : {f g : Frame} → IsCoherent f → Run f g → IsCoherent g
  Run-IsCoherent c here = c
  Run-IsCoherent c (next {g} expected o mark r j) =
      (judge-IsCoherent F expected g o mark (Run-IsCoherent c r)).1 _ j

  full-slots :
      (t : ℕ) (m : Mode) (slots : ℕ) (since : Option ℕ) (u : ℕ)
      → slots ≡ 8
      → Fits m slots since
      → Floor t u m slots since
      → t + seconds 210 ≤ u
  full-slots t normal slots since u e c fl = fl
  full-slots t cautious slots since u e c fl = ground arith
  full-slots t paused slots since u e c fl = ground arith
  full-slots t probe slots since u e c fl = ground arith
  full-slots t recovering slots since u e c fl = ground arith

  -- From a frame that is paused at instant `t` with no low signal running, whatever samples are
  -- accepted, a frame that offers all 8 business slots was last observed at least 210 seconds
  -- after `t`.
  pub full_recovery_takes_210_seconds :
      {f g : Frame} (t : ℕ)
      → IsCoherent f
      → f.mode ≡ paused
      → f.last_observed_at ≡ some t
      → f.low_since ≡ none
      → Run f g
      → g.slots ≡ 8
      → (u : ℕ) × (g.last_observed_at ≡ some u) × (t + seconds 210 ≤ u)
  full_recovery_takes_210_seconds {f} {g} t c p l n r full =
      let start : Since t f = (t, l, omega arith, (λ q e. cc (n, e)), rw p (omega arith)) in
      let (u, e, _, _, floor) = Run-Since t start r in
      (u, e, full-slots t g.mode g.slots g.stage_since u full (Run-IsCoherent c r) floor)
