-- ===== src/Rollout/Held.antt =====
-- Which container a name names through the calls of ops/apisix/rollout_r4a_runtime.py: what the
-- script relies on of docker, and the steps that leave every name as it is.
use ouf_api_gateway.Base.{
  ℕ, zero, suc, Bool, true, false, ◌||◌, Option, none, some, String, List, [], ◌∷◌, ◌==◌, nat_eq,
  string_eq, Outcome, ok, raised, ◌≡◌, refl, ◌∙◌, ◌⊎◌, inl, inr, Bool-cases,
}
use ouf_api_gateway.Rollout.{
  Container, RolloutState, RolloutError, called_process_error, os_error, value_error, Docker, Call,
  continued, ◌>>=◌, done, check, inspected, attempted, ran, readiness, inspect, look, command, save,
  pause, probed, wait_from, wait_udp_ready, start_stopped, wait_if_udp, stop_running,
  connect_if_apisix,
}

-- The commands that change which container a name names.
abbrev pub is_naming : List String → Bool
is_naming [] = false
is_naming (command ∷ args) = command == "rm" || command == "rename" || command == "create"

pub record IsDocker {W : Type 0} (docker : Docker W) (named : W → String → Option String)
    : Type 0 where
  pub inspect_keeps :
      (name : String) (w : W) (j : String) → named (docker.inspect name w).1 j ≡ named w j
  pub inspect_tells :
      (name : String) (w : W) (c : Container)
      → (docker.inspect name w).0 ≡ some c
      → named w name ≡ some c.id
  pub other_keeps :
      (args : List String) (w : W) (j : String)
      → is_naming args ≡ false
      → named (docker.run args w).1 j ≡ named w j
  -- A removal and a creation touch one name.
  pub rm_keeps :
      (name : String) (w : W) (j : String)
      → (name == j) ≡ false
      → named (docker.run ("rm" ∷ name ∷ []) w).1 j ≡ named w j
  pub create_keeps :
      (name : String) (options : List String) (w : W) (j : String)
      → (name == j) ≡ false
      → named (docker.run ("create" ∷ "--name" ∷ name ∷ options) w).1 j ≡ named w j
  -- A rename moves the container, or fails and changes nothing.
  pub rename_moves :
      (from to : String) (w : W)
      → (docker.run ("rename" ∷ from ∷ to ∷ []) w).0 ≡ true
      → named (docker.run ("rename" ∷ from ∷ to ∷ []) w).1 to ≡ named w from
  pub rename_fails :
      (from to : String) (w : W) (j : String)
      → (docker.run ("rename" ∷ from ∷ to ∷ []) w).0 ≡ false
      → named (docker.run ("rename" ∷ from ∷ to ∷ []) w).1 j ≡ named w j
  pub sleep_keeps :
      (seconds : ℕ) (w : W) (j : String) → named (docker.sleep seconds w) j ≡ named w j
  pub save_keeps :
      (state : RolloutState) (w : W) (j : String)
      → named (docker.save_state state w).1 j ≡ named w j

-- How a call ends: with `Q` where it returns, and with `R` where it raises.
abbrev pub Ends :
    {W A : Type 0}
    → (A → W → Type 0)
    → (RolloutError → W → Type 0)
    → Outcome RolloutError A × W
    → Type 0
Ends Q R (ok a, w) = Q a w
Ends Q R (raised e, w) = R e w

-- From `P`, the call ends with `Q` or with `R`.
pub record Leads {W A : Type 0} (P : W → Type 0) (m : Call W A) (Q : A → W → Type 0)
    (R : RolloutError → W → Type 0) : Type 0 where
  pub at : (w : W) → P w → Ends Q R (m w)

continued-Ends :
    {W A B : Type 0} (Q : A → W → Type 0) (R : RolloutError → W → Type 0) (S : B → W → Type 0)
    (x : Outcome RolloutError A × W) (f : A → Call W B)
    → Ends Q R x
    → ((a : A) (w : W) → Q a w → Ends S R (f a w))
    → Ends S R (continued x f)
unfolding continued
continued-Ends Q R S (ok a, w) f h k = k a w h
continued-Ends Q R S (raised e, w) f h k = h

pub Leads-bind :
    {W A B : Type 0} {P : W → Type 0} {Q : A → W → Type 0} {R : RolloutError → W → Type 0}
    {S : B → W → Type 0} {m : Call W A} {f : A → Call W B}
    → Leads P m Q R
    → ((a : A) → Leads (Q a) (f a) S R)
    → Leads P (m >>= f) S R
unfolding ◌>>=◌
Leads-bind {Q = Q} {R = R} {S = S} {m = m} {f = f} h k = record {
  at = λ w p. continued-Ends Q R S (m w) f (h.at w p) (λ a w' q. (k a).at w' q);
}

-- The exception that says that the original is back.
abbrev pub says_restored : RolloutError → Bool
says_restored called_process_error = false
says_restored os_error = false
says_restored (value_error e) = e == "candidate failed; original restored"

module _ {W : Type 0} (docker : Docker W) {named : W → String → Option String}
    (laws : IsDocker docker named) where
  abbrev pub IsNamed : String → String → W → Type 0
  IsNamed name id w = named w name ≡ some id

  -- The container is named by one of the two.
  abbrev pub IsHeld : String → String → String → W → Type 0
  IsHeld name backup id w = IsNamed name id w ⊎ IsNamed backup id w

  -- An exception of a step that has not lost the container, and does not say that it is back.
  abbrev pub Lost : (W → Type 0) → RolloutError → W → Type 0
  Lost P e w = P w × (says_restored e ≡ false)

  ran-Ends :
      (P : W → Type 0) (e : RolloutError) (x : Bool × W)
      → says_restored e ≡ false
      → P x.1
      → Ends (λ (_ : Unit {0}). P) (Lost P) (ran e x)
  ran-Ends P e (true, w) quiet p = p
  ran-Ends P e (false, w) quiet p = (p, quiet)

  -- A predicate on what the names name is kept by each step that keeps the names.
  pub record Follows (P : W → Type 0) : Type 0 where
    pub along : (w w' : W) → ((j : String) → named w' j ≡ named w j) → P w → P w'

  pub IsNamed-Follows : (name id : String) → Follows (IsNamed name id)
  IsNamed-Follows name id = record { along = λ w w' same p. same name ∙ p }

  pub IsHeld-Follows : (name backup id : String) → Follows (IsHeld name backup id)
  IsHeld-Follows name backup id = record {
    along = λ w w' same p. elim p [ inl q ↦ inl (same name ∙ q) | inr q ↦ inr (same backup ∙ q) ];
  }

  module _ (P : W → Type 0) (follows : Follows P) where
    pub done-Leads : Leads P done (λ _. P) (Lost P)
    unfolding done
    done-Leads = record { at = λ w p. p }

    pub check-Leads :
        (b : Bool) (message : String)
        → (message == "candidate failed; original restored") ≡ false
        → Leads P (check b message) (λ _ w. P w × (b ≡ true)) (Lost P)
    unfolding check
    check-Leads true message quiet = record { at = λ w p. (p, refl) }
    check-Leads false message quiet = record { at = λ w p. (p, quiet) }

    pub command-Leads :
        (args : List String)
        → is_naming args ≡ false
        → Leads P (command docker args) (λ _. P) (Lost P)
    unfolding command
    command-Leads args other = record {
      at = λ w p.
          ran-Ends P called_process_error (docker.run args w) refl
            (follows.along w _ (λ j. laws.other_keeps args w j other) p);
    }

    pub save-Leads : (state : RolloutState) → Leads P (save docker state) (λ _. P) (Lost P)
    unfolding save
    save-Leads state = record {
      at = λ w p.
          ran-Ends P os_error (docker.save_state state w) refl
            (follows.along w _ (λ j. laws.save_keeps state w j) p);
    }

    pub pause-Leads : (seconds : ℕ) → Leads P (pause docker seconds) (λ _. P) (Lost P)
    unfolding pause
    pause-Leads seconds = record {
      at = λ w p. follows.along w _ (λ j. laws.sleep_keeps seconds w j) p;
    }

    inspected-Ends :
        (name : String) (x : Option Container × W)
        → P x.1
        → ((c : Container) → x.0 ≡ some c → named x.1 name ≡ some c.id)
        → Ends (λ (c : Container) w. P w × (named w name ≡ some c.id)) (Lost P) (inspected x)
    inspected-Ends name (none, w) p tells = (p, refl)
    inspected-Ends name (some c, w) p tells = (p, tells c refl)

    pub inspect-Leads :
        (name : String)
        → Leads P (inspect docker name) (λ c w. P w × (named w name ≡ some c.id)) (Lost P)
    unfolding inspect
    inspect-Leads name = record {
      at = λ w p.
          inspected-Ends name (docker.inspect name w)
            (follows.along w _ (λ j. laws.inspect_keeps name w j) p)
            (λ c q. laws.inspect_keeps name w name ∙ laws.inspect_tells name w c q);
    }

    -- What a look at a name tells.
    abbrev pub IsSeen : String → Option Container → W → Type 0
    IsSeen name none w = P w
    IsSeen name (some c) w = P w × (named w name ≡ some c.id)

    attempted-Ends :
        (name : String) (x : Option Container × W)
        → P x.1
        → ((c : Container) → x.0 ≡ some c → named x.1 name ≡ some c.id)
        → Ends (IsSeen name) (Lost P) (attempted x)
    attempted-Ends name (none, w) p tells = p
    attempted-Ends name (some c, w) p tells = (p, tells c refl)

    pub look-Leads : (name : String) → Leads P (look docker name) (IsSeen name) (Lost P)
    unfolding look
    look-Leads name = record {
      at = λ w p.
          attempted-Ends name (docker.inspect name w)
            (follows.along w _ (λ j. laws.inspect_keeps name w j) p)
            (λ c q. laws.inspect_keeps name w name ∙ laws.inspect_tells name w c q);
    }

    probed-Ends :
        (is_last : Bool) (x : Bool × W) (next : W → Outcome RolloutError (Unit {0}) × W)
        → P x.1
        → ((w : W) → P w → Ends (λ (_ : Unit {0}). P) (Lost P) (next w))
        → Ends (λ (_ : Unit {0}). P) (Lost P) (probed docker is_last x next)
    probed-Ends is_last (true, w) next p k = p
    probed-Ends true (false, w) next p k = (p, refl)
    probed-Ends false (false, w) next p k =
        k (docker.sleep 3 w) (follows.along w _ (λ j. laws.sleep_keeps 3 w j) p)

    wait_from-Leads :
        (name : String) (attempts attempt left : ℕ) (w : W)
        → P w
        → Ends (λ (_ : Unit {0}). P) (Lost P) (wait_from docker name attempts attempt left w)
    unfolding wait_from
    wait_from-Leads name attempts attempt zero w p = p
    wait_from-Leads name attempts attempt (suc left) w p =
        probed-Ends (suc attempt == attempts) (docker.run (readiness name) w)
          (wait_from docker name attempts (suc attempt) left)
          (follows.along w _ (λ j. laws.other_keeps (readiness name) w j refl) p)
          (λ w' p'. wait_from-Leads name attempts (suc attempt) left w' p')

    pub wait_if_udp-Leads :
        (service name : String) → Leads P (wait_if_udp docker service name) (λ _. P) (Lost P)
    unfolding wait_udp_ready
    wait_if_udp-Leads service name = elim (Bool-cases (service == "udp")) [
      | inl udp ↦ rw udp (record { at = λ w p. wait_from-Leads name 20 0 20 w p })
      | inr other ↦ rw other done-Leads
    ]

    pub start_stopped-Leads :
        (b : Bool) (name : String) → Leads P (start_stopped docker b name) (λ _. P) (Lost P)
    start_stopped-Leads true name = done-Leads
    start_stopped-Leads false name = command-Leads _ refl

    pub stop_running-Leads :
        (b : Bool) (name : String) → Leads P (stop_running docker b name) (λ _. P) (Lost P)
    stop_running-Leads true name = command-Leads _ refl
    stop_running-Leads false name = done-Leads

    pub connect_if_apisix-Leads :
        (service name : String) → Leads P (connect_if_apisix docker service name) (λ _. P) (Lost P)
    connect_if_apisix-Leads service name = elim (Bool-cases (service == "apisix")) [
      | inl apisix ↦ rw apisix (command-Leads _ refl)
      | inr other ↦ rw other done-Leads
    ]
