-- ===== src/Pressure/Tests.antt =====
-- The pressure controller at concrete samples, and its theorems at inputs that meet their
-- hypotheses. Floats are thousandths here.
use ouf_api_gateway.Base.{
  inl, ◌≤◌, ◌+◌, ◌⊎◌, [], ◌≢◌, ◌∷◌, length, false, ℕ, ◌*◌, ◌≡◌, refl, Bool, true, Option, some,
  none, ok, raised, leb, arith,
}
use Prim.Native.Nat.{◌/◌}
use ouf_api_gateway.Base.Int.{pos}
use ouf_api_gateway.Pressure.Floats.{Floats, IsOrdered}
use ouf_api_gateway.Pressure.Contract.{decision_closed, register_scope-bounded}
use ouf_api_gateway.Pressure.Coherence.{
  IsCoherent, IsCoherentTable, record_observation-IsCoherentTable,
}
use ouf_api_gateway.Pressure.Recovery.{Run, here, next, full_recovery_takes_210_seconds}
use ouf_api_gateway.Pressure.Decision.{
  pressure_profile, judge, new_frame, Table, PressureObservation, Decision, decision,
  register_scope, max_scopes, record_observation,
}
use ouf_api_gateway.Base.Dict.{lookup, insert}
use ouf_api_gateway.Pressure.Setback.{hard_sample_takes_210_seconds}
use ouf_api_gateway.Pressure.Replay.{record_observation_again}
use ouf_api_gateway.Pressure.Decision.{is_current}
use ouf_api_gateway.Pressure.Transition.{
  is_rate_high, is_low, failure_rate, normal, recovering, signals, advance, is_hard, type_error,
  Mode, Frame, Sample, seconds, paused, probe,
}

abbrev thousandths : Floats
thousandths = record {
  Float = ℕ;
  le = leb;
  is_finite = λ x. true;
  quotient = λ a b. a * 1000 / b;
  zero = 0;
  tenth = 100;
  half = 500;
  seven_tenths = 700;
  nine_tenths = 900;
  one = 1000;
}

thousandths-IsOrdered : IsOrdered thousandths
thousandths-IsOrdered = record {
  trans = λ a b c h k. ground arith;
  tenth-lt-half = refl;
  seven-lt-nine = refl;
}

abbrev sample : ℕ → ℕ → Sample thousandths
sample at capacity = record {
  observed = seconds at;
  attempts = 5;
  failures = 0;
  dependency_unavailable_seconds = 0;
  capacity_fraction = capacity;
  oldest_backlog_seconds = 0;
}

-- What a run by evaluation sees through.
runs : Bool
unfolding judge signals advance is_hard is_rate_high is_low failure_rate decision lookup
runs = true

abbrev frame_at : ℕ → ℕ → Mode → ℕ → Option ℕ → Option ℕ → Frame
frame_at version at mode slots low stage = record {
  profile = pressure_profile;
  version = version;
  mode = mode;
  slots = slots;
  last_observed_at = some (seconds at);
  last_digest = some "mark";
  high_since = none;
  low_since = low;
  stage_since = stage;
}

abbrev hard_frame : Frame
hard_frame = record (frame_at 1 100 paused 0 none none) { high_since = some (seconds 100) }

abbrev low_start : Option ℕ
low_start = some (seconds 130)

abbrev restored : Frame
restored = frame_at 9 340 normal 8 low_start (some (seconds 340))

-- One step of a run, by evaluation.
calm_step :
    (at : ℕ) (f g : Frame)
    → Run thousandths hard_frame f
    → judge thousandths f.version f (sample at 300) "mark" ≡ ok (some g)
    → Run thousandths hard_frame g
calm_step at f g r j = next f.version (sample at 300) "mark" r j

probed-Run : Run thousandths hard_frame (frame_at 6 250 probe 1 low_start (some (seconds 250)))
unfolding runs
probed-Run =
    calm_step 250 (frame_at 5 220 paused 0 low_start none) _
      (calm_step 220 (frame_at 4 190 paused 0 low_start none) _
        (calm_step 190 (frame_at 3 160 paused 0 low_start none) _
          (calm_step 160 (frame_at 2 130 paused 0 low_start none) _
            (calm_step 130 hard_frame _ here refl) refl)
          refl)
        refl)
      refl

restored-Run : Run thousandths hard_frame restored
unfolding runs
restored-Run =
    calm_step 340 (frame_at 8 310 recovering 4 low_start (some (seconds 310))) _
      (calm_step 310 (frame_at 7 280 recovering 2 low_start (some (seconds 280))) _
        (calm_step 280 (frame_at 6 250 probe 1 low_start (some (seconds 250))) _ probed-Run refl)
        refl)
      refl

full_recovery_takes_210_seconds_example :
    (u : ℕ) × (restored.last_observed_at ≡ some u) × (seconds 100 + seconds 210 ≤ u)
unfolding runs
full_recovery_takes_210_seconds_example =
    full_recovery_takes_210_seconds thousandths (seconds 100) refl refl refl refl restored-Run refl

abbrev scopes : Table
scopes = ("service://udp", hard_frame) ∷ []

abbrev observation : ℕ → PressureObservation thousandths
observation at = record {
  observed_at = some (seconds at);
  window_seconds = pos 300;
  attempts = pos 5;
  failures = pos 0;
  dependency_unavailable_seconds = pos 0;
  capacity_fraction = 300;
  oldest_backlog_seconds = pos 0;
}

hard_frame-IsCoherent : IsCoherent hard_frame
unfolding runs
hard_frame-IsCoherent = refl

hard_sample_takes_210_seconds_example :
    (hard_frame.slots ≡ 0)
    × (restored.slots ≡ 8
        → (u : ℕ) × (restored.last_observed_at ≡ some u) × (seconds 100 + seconds 210 ≤ u))
unfolding runs
hard_sample_takes_210_seconds_example =
    hard_sample_takes_210_seconds thousandths thousandths-IsOrdered 0 new_frame (sample 100 950)
      "mark" refl (inl refl) refl restored-Run

after_observation : Table
unfolding runs
after_observation =
    (record_observation thousandths (λ o. "m") (seconds 131) "service://udp" (observation 130)
      (pos 1) scopes).1

observed :
    record_observation thousandths
      (λ o. "m")
      (seconds 131)
      "service://udp"
      (observation 130)
      (pos 1)
      scopes
    ≡ (ok tt, after_observation)
unfolding runs record_observation after_observation insert
observed = refl

record_observation_again_example :
    record_observation thousandths
      (λ o. "m")
      (seconds 140)
      "service://udp"
      (observation 130)
      (pos 7)
      after_observation
    ≡ (ok tt, after_observation)
unfolding runs is_current
record_observation_again_example =
    record_observation_again thousandths (λ o. "m") (seconds 131) (seconds 140) "service://udp"
      (observation 130) (pos 1) 7 scopes after_observation after_observation (seconds 130) observed
      refl refl refl

scopes-IsCoherentTable : IsCoherentTable scopes
unfolding lookup
scopes-IsCoherentTable = record { at = λ k f e. ground (arith, hard_frame-IsCoherent) }

record_observation-IsCoherentTable_example :
    let (outcome, table') =
      record_observation thousandths
        (λ o. "m")
        (seconds 131)
        "service://udp"
        (observation 130)
        (pos 1)
        scopes in
    (outcome ≢ raised type_error) × IsCoherentTable table'
record_observation-IsCoherentTable_example =
    record_observation-IsCoherentTable thousandths (λ o. "m") (seconds 131) "service://udp"
      (observation 130) (pos 1) scopes scopes-IsCoherentTable

abbrev stale_decision : Decision
stale_decision = record {
  scope_ref = "service://udp";
  version = 1;
  mode = none;
  business_slots = 0;
  reserved_control_slots = 2;
  evidence_fresh = false;
  execution_authorized = false;
  retry_budget_renewed = false;
}

decision_closed_example :
    (stale_decision.execution_authorized ≡ false)
    × (stale_decision.retry_budget_renewed ≡ false)
    × (((stale_decision.mode ≡ none) × (stale_decision.business_slots ≡ 0))
        ⊎ ((f : Frame) × (last : ℕ) × (lookup "service://udp" scopes ≡ some f)
            × (f.last_observed_at ≡ some last)
            × (stale_decision.business_slots ≡ f.slots)
            × (last ≤ seconds 500 + seconds 5)
            × (seconds 500 ≤ last + seconds 30)))
unfolding runs
decision_closed_example = decision_closed (seconds 500) "service://udp" scopes stale_decision refl

register_scope-bounded_example :
    let table' = (register_scope "service://mcp" scopes).1 in
    (length table' ≤ max_scopes)
    × (lookup "service://udp" scopes ≡ some hard_frame
        → lookup "service://udp" table' ≡ some hard_frame)
register_scope-bounded_example =
    register_scope-bounded "service://mcp" "service://udp" hard_frame scopes (omega arith)
