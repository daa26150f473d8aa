-- ===== src/Pressure/Setback.antt =====
-- What a hard sample of tools/operational_pressure.py costs.
use ouf_api_gateway.Base.{ℕ, ◌+◌, ◌≤◌, ◌≡◌, ◌⊎◌, inl, inr, true, some, String, ok, arith}
use ouf_api_gateway.Pressure.Floats.{Floats, IsOrdered}
use ouf_api_gateway.Pressure.Transition.{Frame, Sample, is_hard, seconds}
use ouf_api_gateway.Pressure.Decision.{judge}
use ouf_api_gateway.Pressure.Coherence.{IsCoherent, judge-IsCoherent}
use ouf_api_gateway.Pressure.Contract.{judge-hard}
use ouf_api_gateway.Pressure.Recovery.{Run, full_recovery_takes_210_seconds}

module _ (F : Floats) (I : IsOrdered F) where
  -- Capacity at 0.9 or more, the dependency away for 300 seconds, or a backlog of 900 seconds at
  -- capacity 0.7 or more.
  abbrev pub IsHardSample : Sample F → Type 0
  IsHardSample o =
      (F.le F.nine_tenths o.capacity_fraction ≡ true)
      ⊎ ((300 ≤ o.dependency_unavailable_seconds)
          ⊎ ((900 ≤ o.oldest_backlog_seconds) × (F.le F.seven_tenths o.capacity_fraction ≡ true)))

  is_hard-sample : (o : Sample F) → IsHardSample o → is_hard F o ≡ true
  unfolding is_hard
  is_hard-sample o (inl full) = ground arith
  is_hard-sample o (inr (inl away)) = ground arith
  is_hard-sample o (inr (inr (old, busy))) = ground arith

  -- On a coherent frame in whichever mode, an accepted sample with capacity at 0.9 or more, the
  -- dependency away for 300 seconds, or a backlog of 900 seconds at capacity 0.7 or more leaves no
  -- slots; and whatever samples are accepted after it, a frame that offers all 8 business slots was
  -- last observed at least 210 seconds after it.
  pub hard_sample_takes_210_seconds :
      (expected : ℕ) (f : Frame) (o : Sample F) (mark : String) {f' g : Frame}
      → IsCoherent f
      → IsHardSample o
      → judge F expected f o mark ≡ ok (some f')
      → Run F f' g
      → (f'.slots ≡ 0)
        × (g.slots ≡ 8 → (u : ℕ) × (g.last_observed_at ≡ some u) × (o.observed + seconds 210 ≤ u))
  hard_sample_takes_210_seconds expected f o mark {f'} c hard j r =
      let (stops, none_left, at, low) =
        judge-hard F I expected f o mark f' j (is_hard-sample o hard) in
      let c' = (judge-IsCoherent F expected f o mark c).1 f' j in
      (none_left, full_recovery_takes_210_seconds F o.observed c' stops at low r)
