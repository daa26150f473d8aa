-- ===== src/Rollout/Ready.antt =====
-- The loop of `wait_udp_ready` in ops/apisix/rollout_r4a_runtime.py: when it ends, and how.
use ouf_api_gateway.Base.{
  ℕ, zero, suc, ◌+◌, ◌<◌, Bool, true, false, String, ◌==◌, nat_eq, Outcome, ok, raised, ◌≡◌, refl,
  ◌∙◌, arith,
}
use ouf_api_gateway.Rollout.{
  Docker, RolloutError, value_error, readiness, probed, wait_from, wait_udp_ready,
}

module _ {W : Type 0} (docker : Docker W) (name : String) where
  -- The world in which the probe number `k` begins, where the ones before it have failed.
  unfoldable pub before_probe : ℕ → W → W
  before_probe zero w = w
  before_probe (suc k) w = before_probe k (docker.sleep 3 (docker.run (readiness name) w).1)

  abbrev pub answers : ℕ → W → Bool
  answers k w = (docker.run (readiness name) (before_probe k w)).0

  answered :
      (is_last : Bool) (x : Bool × W) (next : W → Outcome RolloutError (Unit {0}) × W)
      → x.0 ≡ true
      → (probed docker is_last x next).0 ≡ ok tt
  answered is_last (true, w) next h = refl
  answered is_last (false, w) next h = absurd (ground arith)

  resumed :
      (x : Bool × W) (next : W → Outcome RolloutError (Unit {0}) × W)
      → (next (docker.sleep 3 x.1)).0 ≡ ok tt
      → (probed docker false x next).0 ≡ ok tt
  resumed (true, w) next h = refl
  resumed (false, w) next h = h

  given_up :
      (x : Bool × W) (next : W → Outcome RolloutError (Unit {0}) × W)
      → x.0 ≡ false
      → probed docker true x next
        ≡ (raised (value_error "UDP readiness did not become healthy"), x.1)
  given_up (true, w) next h = absurd (ground arith)
  given_up (false, w) next h = refl

  went_on :
      (x : Bool × W) (next : W → Outcome RolloutError (Unit {0}) × W)
      → x.0 ≡ false
      → probed docker false x next ≡ next (docker.sleep 3 x.1)
  went_on (true, w) next h = absurd (ground arith)
  went_on (false, w) next h = refl

  wait_from-returns :
      (attempts attempt left k : ℕ) (w : W)
      → attempt + left ≡ attempts
      → k < left
      → answers k w ≡ true
      → (wait_from docker name attempts attempt left w).0 ≡ ok tt
  unfolding wait_from before_probe
  wait_from-returns attempts attempt zero k w total h q = absurd (omega (arith, h))
  wait_from-returns attempts attempt (suc left) zero w total h q = answered _ _ _ q
  wait_from-returns attempts attempt (suc left) (suc k) w total h q =
      let early : (suc attempt == attempts) ≡ false = ground (arith, total, h) in
      rw early (
        resumed (docker.run (readiness name) w) (wait_from docker name attempts (suc attempt) left)
          (wait_from-returns attempts (suc attempt) left k
            (docker.sleep 3 (docker.run (readiness name) w).1) (omega (arith, total))
            (omega (arith, h)) q))

  wait_from-raises :
      (attempts attempt left : ℕ) (w : W)
      → attempt + suc left ≡ attempts
      → ((k : ℕ) → k < suc left → answers k w ≡ false)
      → wait_from docker name attempts attempt (suc left) w ≡ (
        raised (value_error "UDP readiness did not become healthy"),
        (docker.run (readiness name) (before_probe left w)).1,
      )
  unfolding wait_from before_probe
  wait_from-raises attempts attempt zero w total h =
      let final : (suc attempt == attempts) ≡ true = ground (arith, total, h) in
      rw final (given_up _ _ (h 0 (omega arith)))
  wait_from-raises attempts attempt (suc left) w total h =
      let early : (suc attempt == attempts) ≡ false = ground (arith, total, h) in
      rw early (
        went_on _ _ (h 0 (omega arith))
        ∙ wait_from-raises attempts (suc attempt) left
            (docker.sleep 3 (docker.run (readiness name) w).1) (omega (arith, total))
            (λ k b. h (suc k) (omega (arith, b))))

  -- `wait_udp_ready` returns where one of its `attempts` probes is answered, each of them 3 seconds
  -- after the one before it has failed.
  pub wait_udp_ready-returns :
      (attempts k : ℕ) (w : W)
      → k < attempts
      → answers k w ≡ true
      → (wait_udp_ready docker name attempts w).0 ≡ ok tt
  unfolding wait_udp_ready
  wait_udp_ready-returns attempts k w h q =
      wait_from-returns attempts 0 attempts k w (omega arith) h q

  -- Where none of the probes is answered and at least one is allowed, `wait_udp_ready` raises right
  -- behind the last one that is allowed: it makes no further probe and no further pause.
  pub wait_udp_ready-raises :
      (left : ℕ) (w : W)
      → ((k : ℕ) → k < suc left → answers k w ≡ false)
      → wait_udp_ready docker name (suc left) w ≡ (
        raised (value_error "UDP readiness did not become healthy"),
        (docker.run (readiness name) (before_probe left w)).1,
      )
  unfolding wait_udp_ready
  wait_udp_ready-raises left w h = wait_from-raises (suc left) 0 left w (omega arith) h
