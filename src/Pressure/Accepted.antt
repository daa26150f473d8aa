-- ===== src/Pressure/Accepted.antt =====
-- What an accepted sample says of the frame before it and of the frame after it.
use ouf_api_gateway.Base.{
  ℕ, ◌≡◌, inl, inr, false, some, String, ok, arith, Outcome-cases, nat_eq, string_eq, option_eq,
}
use ouf_api_gateway.Pressure.Floats.{Floats}
use ouf_api_gateway.Pressure.Transition.{Frame, Stage, Sample, signals, advance}
use ouf_api_gateway.Pressure.Decision.{pressure_profile, stage_of, is_behind, write, accept, judge}

module _ (F : Floats) (expected : ℕ) (f : Frame) (o : Sample F) (mark : String) where
  pub record Accepted (f' : Frame) : Type 0 where
    pub stage : Stage
    pub moved : advance (signals F f o) (stage_of f) ≡ ok stage
    pub written : f' ≡ write F f o mark stage
    pub version : f.version ≡ expected
    pub newer : is_behind o.observed f.last_observed_at ≡ false
    pub profile : f.profile ≡ pressure_profile

  pub judge-Accepted : (f' : Frame) → judge F expected f o mark ≡ ok (some f') → Accepted f'
  unfolding judge accept
  judge-Accepted f' j = elim (Outcome-cases (advance (signals F f o) (stage_of f))) [
    | inl (s, e) ↦ record {
      stage = s;
      moved = e;
      written = ground arith;
      version = ground (arith, nat_eq.decides f.version expected);
      newer = ground arith;
      profile = ground (arith, string_eq.decides f.profile pressure_profile);
    }
    | inr (x, e) ↦ absurd (ground arith)
  ]
