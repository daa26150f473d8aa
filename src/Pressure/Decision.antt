-- ===== src/Pressure/Decision.antt =====
-- The operations of `PersistentPressureController` on the table of scopes.
use Prim.Native.String
use text.Mathlib.Text.{find?}
use ouf_api_gateway.Base.{
  ℕ, suc, ◌+◌, Bool, true, false, not, ◌&&◌, ◌||◌, Option, none, some, String, Outcome, ok, raised,
  ◌>>=◌, ◌>>◌, require, forbid, ltb, leb, ◌==◌, ◌≠◌, nat_eq, string_eq, option_eq, if◌then◌else◌,
  length,
}
use ouf_api_gateway.Base.Int.{ℤ, pos, negsuc}
use ouf_api_gateway.Base.Dict.{Dict, lookup, insert}
use ouf_api_gateway.Pressure.Floats.{Floats}
use ouf_api_gateway.Pressure.Transition.{
  Error, scope_invalid, profile_changed, scope_capacity, version_invalid, observation_invalid,
  stale_or_window_invalid, scope_unregistered, observation_conflict, Mode, normal, Frame, Stage,
  Sample, seconds, fresh_seconds, signals, advance,
}

abbrev pub pressure_profile : String
pressure_profile = "ouf.operational-pressure.reference.v1"

abbrev pub max_scopes : ℕ
max_scopes = 1024

abbrev pub control_slots : ℕ
control_slots = 2

abbrev pub Table : Type 0
Table = Dict Frame

abbrev pub new_frame : Frame
new_frame = record {
  profile = pressure_profile;
  version = 0;
  mode = normal;
  slots = 8;
  last_observed_at = none;
  last_digest = none;
  high_since = none;
  low_since = none;
  stage_since = none;
}

abbrev is_some : Option ℕ → Bool
is_some none = false
is_some (some at) = true

-- `1 <= len(scope_ref) <= 200 and '://' in scope_ref`
pub is_scope_ref : String → Bool
is_scope_ref s = leb 1 (String.count s) && leb (String.count s) 200 && is_some (find? s "://")

-- A refused registration is rolled back.
unfoldable pub register_scope : String → Table → Outcome Error (Unit {0}) × Table
register_scope scope_ref table =
    if not (is_scope_ref scope_ref)
    then (raised scope_invalid, table)
    else elim (lookup scope_ref table) [
      | some existing ↦
          if existing.profile ≠ pressure_profile
          then (raised profile_changed, table)
          else (ok tt, table)
      | none ↦
          if leb max_scopes (length table)
          then (raised scope_capacity, table)
          else (ok tt, insert scope_ref new_frame table)
    ]

-- `PressureObservation` at the annotated types; `none` is a `datetime` with no time zone.
pub record PressureObservation (F : Floats) : Type 0 where
  pub observed_at : Option ℕ
  pub window_seconds : ℤ
  pub attempts : ℤ
  pub failures : ℤ
  pub dependency_unavailable_seconds : ℤ
  pub capacity_fraction : F.Float
  pub oldest_backlog_seconds : ℤ

-- `value < 0 or value > 1_000_000_000` is refused.
unfoldable pub bounded : ℤ → Outcome Error ℕ
bounded (negsuc n) = raised observation_invalid
bounded (pos n) = if ltb 1000000000 n then raised observation_invalid else ok n

unfoldable pub is_window : ℤ → Bool
is_window (pos n) = n == 300
is_window (negsuc n) = false

-- `-5 <= now - observed <= 30`
unfoldable pub is_current : ℕ → ℕ → Bool
is_current now observed =
    leb observed (now + seconds 5) && leb now (observed + seconds fresh_seconds)

pub record Decision : Type 0 where
  pub scope_ref : String
  pub version : ℕ
  -- `none` is the mode UNKNOWN
  pub mode : Option Mode
  pub business_slots : ℕ
  pub reserved_control_slots : ℕ
  pub evidence_fresh : Bool
  pub execution_authorized : Bool
  pub retry_budget_renewed : Bool

-- No observation is not a current one.
unfoldable pub is_current_at : ℕ → Option ℕ → Bool
unfolding is_current
is_current_at now none = false
is_current_at now (some last) = is_current now last

unfoldable pub is_fresh : ℕ → Frame → Bool
unfolding is_current_at
is_fresh now frame = (frame.profile == pressure_profile) && is_current_at now frame.last_observed_at

unfoldable pub decision : ℕ → String → Table → Outcome Error Decision
unfolding is_fresh
decision now scope_ref table = elim (lookup scope_ref table) [
  | none ↦ raised scope_unregistered
  | some frame ↦
      let fresh = is_fresh now frame in
      ok (record {
        scope_ref = scope_ref;
        version = frame.version;
        mode = if fresh then some frame.mode else none;
        business_slots = if fresh then frame.slots else 0;
        reserved_control_slots = control_slots;
        evidence_fresh = fresh;
        execution_authorized = false;
        retry_budget_renewed = false;
      })
]

abbrev pub stage_of : Frame → Stage
stage_of frame = record { mode = frame.mode; slots = frame.slots; stage_since = frame.stage_since }

-- `last_observed_at is not None and observed <= last_observed_at`
unfoldable pub is_behind : ℕ → Option ℕ → Bool
is_behind observed none = false
is_behind observed (some last) = leb observed last

module _ (F : Floats) where
  unfoldable pub validate : PressureObservation F → ℕ → Outcome Error (Sample F)
  unfolding bounded is_window is_current
  validate o now = elim o.observed_at [
    | none ↦ raised observation_invalid
    | some observed ↦ do
      require (is_current now observed && is_window o.window_seconds) stale_or_window_invalid
      window ← bounded o.window_seconds
      attempts ← bounded o.attempts
      failures ← bounded o.failures
      unavailable ← bounded o.dependency_unavailable_seconds
      backlog ← bounded o.oldest_backlog_seconds
      forbid (ltb attempts failures) observation_invalid
      require
          (F.is_finite o.capacity_fraction
            && F.le F.zero o.capacity_fraction
            && F.le o.capacity_fraction F.one)
          observation_invalid
      ok (record {
        observed = observed;
        attempts = attempts;
        failures = failures;
        dependency_unavailable_seconds = unavailable;
        capacity_fraction = o.capacity_fraction;
        oldest_backlog_seconds = backlog;
      })
  ]

  -- The columns that an accepted sample writes.
  unfoldable pub write : Frame → Sample F → String → Stage → Frame
  write frame o mark s =
      let g = signals F frame o in
      record {
        profile = frame.profile;
        version = suc frame.version;
        mode = s.mode;
        slots = s.slots;
        last_observed_at = some o.observed;
        last_digest = some mark;
        high_since = g.high_since;
        low_since = g.low_since;
        stage_since = s.stage_since;
      }

  unfoldable pub accept : Frame → Sample F → String → Outcome Error Frame
  unfolding write
  accept frame o mark =
      advance (signals F frame o) (stage_of frame) >>= λ s. ok (write frame o mark s)

  -- `none` is the branch that commits nothing new: the sample was recorded before.
  unfoldable pub judge : ℕ → Frame → Sample F → String → Outcome Error (Option Frame)
  unfolding accept is_behind
  judge expected frame o mark =
      if frame.profile ≠ pressure_profile
      then raised profile_changed
      else if some o.observed == frame.last_observed_at && some mark == frame.last_digest
      then ok none
      else if frame.version ≠ expected || is_behind o.observed frame.last_observed_at
      then raised observation_conflict
      else (accept frame o mark >>= λ frame'. ok (some frame'))

  -- The body of the transaction: the table after it, with every refusal rolled back.
  unfoldable pub apply_sample :
      ℕ → String → Sample F → String → Table → Outcome Error (Unit {0}) × Table
  unfolding judge
  apply_sample expected scope_ref sample mark table = elim (lookup scope_ref table) [
    | none ↦ (raised scope_unregistered, table)
    | some frame ↦ elim (judge expected frame sample mark) [
      | raised e ↦ (raised e, table)
      | ok none ↦ (ok tt, table)
      | ok (some frame') ↦ (ok tt, insert scope_ref frame' table)
    ]
  ]

module _ (F : Floats) (fingerprint : PressureObservation F → String) where
  unfoldable pub record_observation :
      ℕ → String → PressureObservation F → ℤ → Table → Outcome Error (Unit {0}) × Table
  unfolding validate apply_sample
  record_observation now scope_ref o (negsuc v) table = (raised version_invalid, table)
  record_observation now scope_ref o (pos expected) table = elim (validate F o now) [
    | raised e ↦ (raised e, table)
    | ok sample ↦ apply_sample F expected scope_ref sample (fingerprint o) table
  ]

  -- `later` is the clock at the final `return self.decision(scope_ref)`.
  unfoldable pub observe :
      ℕ → ℕ → String → PressureObservation F → ℤ → Table → Outcome Error Decision × Table
  unfolding record_observation decision
  observe now later scope_ref o expected table =
      let (outcome, table') = record_observation now scope_ref o expected table in
      elim outcome [
        | raised e ↦ (raised e, table')
        | ok done ↦ (decision later scope_ref table', table')
      ]
