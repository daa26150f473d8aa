-- ===== src/Pressure/Transition.antt =====
-- The frame of a scope, and how an accepted sample moves its mode, slots and stage.
use ouf_api_gateway.Base.{
  ℕ, ◌+◌, ◌*◌, Bool, true, false, not, ◌&&◌, ◌||◌, Option, none, some, String, Outcome, ok, raised,
  ◌>>=◌, ltb, leb, min, ◌==◌, nat_eq, if◌then◌else◌,
}
use ouf_api_gateway.Pressure.Floats.{Floats}

pub data Error : Type 0 where
  scope_invalid profile_changed scope_capacity version_invalid : Error
  observation_invalid stale_or_window_invalid scope_unregistered observation_conflict : Error
  -- `observed - None`
  type_error : Error

pub data Mode : Type 0 where
  normal cautious paused probe recovering : Mode

abbrev pub seconds : ℕ → ℕ
seconds n = n * 1000000

pub record Frame : Type 0 where
  pub profile : String
  pub version : ℕ
  pub mode : Mode
  pub slots : ℕ
  pub last_observed_at : Option ℕ
  pub last_digest : Option String
  pub high_since : Option ℕ
  pub low_since : Option ℕ
  pub stage_since : Option ℕ

abbrev pub fresh_seconds : ℕ
fresh_seconds = 30

abbrev pub business_slots : ℕ
business_slots = 8

-- The part of a frame that the ladder of modes rewrites.
pub record Stage : Type 0 where
  pub mode : Mode
  pub slots : ℕ
  pub stage_since : Option ℕ

-- A validated observation.
pub record Sample (F : Floats) : Type 0 where
  pub observed : ℕ
  pub attempts : ℕ
  pub failures : ℕ
  pub dependency_unavailable_seconds : ℕ
  pub capacity_fraction : F.Float
  pub oldest_backlog_seconds : ℕ

pub record Signals : Type 0 where
  pub observed : ℕ
  pub hard : Bool
  pub high : Bool
  pub low : Bool
  pub gap : Bool
  pub high_since : Option ℕ
  pub low_since : Option ℕ
  pub progress : Bool

-- How long a signal has held: since the first sample of an unbroken run.
unfoldable pub held_since : Bool → Bool → ℕ → Option ℕ → Option ℕ
held_since false gap observed since = none
held_since true true observed since = some observed
held_since true false observed none = some observed
held_since true false observed (some t) = some t

-- `last_observed_at is None or observed-last_observed_at > FRESH_SECONDS`
unfoldable pub is_gap : ℕ → Option ℕ → Bool
is_gap observed none = true
is_gap observed (some last) = ltb (last + seconds fresh_seconds) observed

module _ (F : Floats) where
  open F use {le, quotient, zero, tenth, half, seven_tenths, nine_tenths}

  unfoldable pub failure_rate : Sample F → F.Float
  failure_rate o = if o.attempts == 0 then zero else quotient o.failures o.attempts

  unfoldable pub is_rate_high : Sample F → Bool
  is_rate_high o = leb 20 o.attempts && le half (failure_rate o)

  unfoldable pub is_hard : Sample F → Bool
  is_hard o =
      le nine_tenths o.capacity_fraction
      || leb 300 o.dependency_unavailable_seconds
      || (leb 900 o.oldest_backlog_seconds && le seven_tenths o.capacity_fraction)

  unfoldable pub is_low : Sample F → Bool
  is_low o =
      le o.capacity_fraction seven_tenths
      && ltb o.oldest_backlog_seconds 300
      && (o.dependency_unavailable_seconds == 0)
      && le (failure_rate o) tenth

  unfoldable pub signals : Frame → Sample F → Signals
  unfolding is_gap held_since
  signals frame o =
      let high = is_hard o || is_rate_high o in
      let low = is_low o in
      let gap = is_gap o.observed frame.last_observed_at in
      record {
        observed = o.observed;
        hard = is_hard o;
        high = high;
        low = low;
        gap = gap;
        high_since = held_since high gap o.observed frame.high_since;
        low_since = held_since low gap o.observed frame.low_since;
        progress = ltb 0 o.attempts && (o.failures == 0);
      }

-- `observed - since >= n`, which raises when `since` is None.
unfoldable pub elapsed : ℕ → ℕ → Option ℕ → Outcome Error Bool
elapsed n observed none = raised type_error
elapsed n observed (some since) = ok (leb (since + seconds n) observed)

-- The same where the source tests `since is not None` first.
unfoldable pub has_elapsed : ℕ → ℕ → Option ℕ → Bool
has_elapsed n observed none = false
has_elapsed n observed (some since) = leb (since + seconds n) observed

abbrev pub paused_stage : Stage
paused_stage = record { mode = paused; slots = 0; stage_since = none }

abbrev pub cautious_stage : Stage
cautious_stage = record { mode = cautious; slots = 2; stage_since = none }

abbrev pub recovering_stage : ℕ → Stage
recovering_stage observed = record { mode = recovering; slots = 2; stage_since = some observed }

-- One rung up the ladder: the slots double, up to the business slots, where the mode is normal.
unfoldable pub widen : ℕ → Stage → Stage
widen observed s =
    let slots = min business_slots (s.slots * 2) in
    record {
      mode = if slots == business_slots then normal else s.mode;
      slots = slots;
      stage_since = some observed;
    }

unfoldable pub under_pressure : Mode → Stage → Stage
under_pressure paused s = s
under_pressure probe s = s
under_pressure _ s = cautious_stage

-- The branches below `high`, by mode.
unfoldable pub relax : Signals → Mode → Stage → Outcome Error Stage
unfolding elapsed widen
relax g paused s =
    if g.low
    then (elapsed 120 g.observed g.low_since >>= λ reached.
        ok (
          if reached then record { mode = probe; slots = 1; stage_since = some g.observed } else s))
    else ok s
relax g probe s =
    if not g.low
    then ok paused_stage
    else if g.gap
    then ok s
    else (elapsed 30 g.observed s.stage_since >>= λ reached.
        ok (if reached && g.progress then recovering_stage g.observed else s))
relax g recovering s =
    if not g.low
    then ok cautious_stage
    else if g.gap
    then ok (record s { stage_since = some g.observed })
    else (elapsed 30 g.observed s.stage_since >>= λ reached.
        ok (if reached && g.progress then widen g.observed s else s))
relax g cautious s =
    if g.low
    then (elapsed 120 g.observed g.low_since >>= λ reached.
        ok (if reached then recovering_stage g.observed else s))
    else ok s
relax g normal s = ok s

unfoldable pub advance : Signals → Stage → Outcome Error Stage
unfolding has_elapsed under_pressure relax
advance g s =
    if g.hard || (g.high && has_elapsed 90 g.observed g.high_since)
    then ok paused_stage
    else if g.high
    then ok (under_pressure s.mode s)
    else relax g s.mode s
