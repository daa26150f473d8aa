-- ===== src/Rollout.antt =====
-- ops/apisix/rollout_r4a_runtime.py: the staging of one service and its rollback. Docker is no part
-- of the repository: `Docker` is what the script calls of it, in a world that it changes.
pub mod Ready
pub mod Held
pub mod Restored
pub mod Staged
pub mod Ordered
pub mod Working
pub mod Recovered
pub mod Returns
mod Tests
use Prim.Native.String
use ouf_api_gateway.Base.{
  ℕ, zero, suc, ◌+◌, Bool, true, false, not, ◌&&◌, Option, none, some, String, List, [], ◌∷◌, ◌==◌,
  ◌≠◌, nat_eq, string_eq, Outcome, ok, raised, if◌then◌else◌,
}

-- What the script reads of an inspected container.
pub record Container : Type 0 where
  pub id : String
  pub image : String
  pub running : Bool

-- The file that a staging leaves for its rollback.
pub record RolloutState : Type 0 where
  pub service : String
  pub old_id : String
  pub backup : String

-- `called_process_error` is a command of docker that fails.
pub data RolloutError : Type 0 where
  called_process_error : RolloutError
  os_error : RolloutError
  value_error : String → RolloutError

-- `inspect` is `none`, and `run` and `save_state` are `false`, where the call raises.
pub record Docker (World : Type 0) : Type 0 where
  pub inspect : String → World → Option Container × World
  pub run : List String → World → Bool × World
  pub sleep : ℕ → World → World
  pub save_state : RolloutState → World → Bool × World

abbrev pub Call : Type 0 → Type 0 → Type 0
Call W A = W → Outcome RolloutError A × W

unfoldable pub continued :
    {W A B : Type 0} → Outcome RolloutError A × W → (A → Call W B) → Outcome RolloutError B × W
continued (ok a, w) f = f a w
continued (raised e, w) f = (raised e, w)

infixl 5 ◌>>=◌
unfoldable pub ◌>>=◌ : {W A B : Type 0} → Call W A → (A → Call W B) → Call W B
unfolding continued
◌>>=◌ m f w = continued (m w) f

unfoldable pub done : {W : Type 0} → Call W (Unit {0})
done w = (ok tt, w)

-- `if not test: raise ValueError(message)`
unfoldable pub check : {W : Type 0} → Bool → String → Call W (Unit {0})
check true message w = (ok tt, w)
check false message w = (raised (value_error message), w)

abbrev pub inspected : {W : Type 0} → Option Container × W → Outcome RolloutError Container × W
inspected (none, w) = (raised called_process_error, w)
inspected (some c, w) = (ok c, w)

-- `try: inspect(name)` with `except CalledProcessError: None`
abbrev pub attempted :
    {W : Type 0} → Option Container × W → Outcome RolloutError (Option Container) × W
attempted (c, w) = (ok c, w)

abbrev pub ran : {W : Type 0} → RolloutError → Bool × W → Outcome RolloutError (Unit {0}) × W
ran e (true, w) = (ok tt, w)
ran e (false, w) = (raised e, w)

abbrev pub readiness : String → List String
readiness name =
    "exec" ∷ name ∷ "wget" ∷ "-q" ∷ "-O" ∷ "/dev/null"
    ∷ "http://127.0.0.1:8080/actuator/health/readiness" ∷ []

abbrev pub container_name : String → String
container_name service = String.◌++◌ "ouf-" service

module _ {W : Type 0} (docker : Docker W) where
  unfoldable pub inspect : String → Call W Container
  inspect name w = inspected (docker.inspect name w)

  unfoldable pub look : String → Call W (Option Container)
  look name w = attempted (docker.inspect name w)

  unfoldable pub command : List String → Call W (Unit {0})
  command args w = ran called_process_error (docker.run args w)

  unfoldable pub save : RolloutState → Call W (Unit {0})
  save state w = ran os_error (docker.save_state state w)

  unfoldable pub pause : ℕ → Call W (Unit {0})
  pause seconds w = (ok tt, docker.sleep seconds w)

  -- A round of the loop: a probe that fails is the last one, or is followed by a pause of 3 seconds.
  abbrev pub probed :
      Bool
      → Bool × W
      → (W → Outcome RolloutError (Unit {0}) × W)
      → Outcome RolloutError (Unit {0}) × W
  probed is_last (true, w) next = (ok tt, w)
  probed true (false, w) next = (raised (value_error "UDP readiness did not become healthy"), w)
  probed false (false, w) next = next (docker.sleep 3 w)

  -- The rounds of `for attempt in range(attempts)` from `attempt` on, as many as are left.
  unfoldable pub wait_from : String → ℕ → ℕ → ℕ → Call W (Unit {0})
  wait_from name attempts attempt zero w = (ok tt, w)
  wait_from name attempts attempt (suc left) w =
      probed (suc attempt == attempts) (docker.run (readiness name) w)
        (wait_from name attempts (suc attempt) left)

  -- `wait_udp_ready(name, attempts)`
  unfoldable pub wait_udp_ready : String → ℕ → Call W (Unit {0})
  wait_udp_ready name attempts = wait_from name attempts 0 attempts

  abbrev pub stop_running : Bool → String → Call W (Unit {0})
  stop_running true name = command ("stop" ∷ name ∷ [])
  stop_running false name = done

  -- `if current and current['Id'] != state['old_id']`
  unfoldable pub remove_candidate : String → String → Option Container → Call W (Unit {0})
  remove_candidate name old_id none = done
  remove_candidate name old_id (some current) =
      if current.id ≠ old_id
      then (do
        updated ← command ("update" ∷ "--restart" ∷ "no" ∷ name ∷ [])
        stopped ← stop_running current.running name
        command ("rm" ∷ name ∷ []))
      else done

  -- `if original`
  unfoldable pub rename_original : String → String → String → Option Container → Call W (Unit {0})
  rename_original name backup old_id none = done
  rename_original name backup old_id (some original) = do
    same ← check (original.id == old_id) "rollback container identity mismatch"
    command ("rename" ∷ backup ∷ name ∷ [])

  abbrev pub start_stopped : Bool → String → Call W (Unit {0})
  start_stopped true name = done
  start_stopped false name = command ("start" ∷ name ∷ [])

  abbrev pub wait_if_udp : String → String → Call W (Unit {0})
  wait_if_udp service name = if service == "udp" then wait_udp_ready name 20 else done

  -- From the second inspection of the service's name on.
  unfoldable pub confirm_original : String → String → String → Call W (Unit {0})
  confirm_original service name old_id = do
    restored ← inspect name
    same ← check (restored.id == old_id) "cannot restore original container"
    started ← start_stopped restored.running name
    updated ← command ("update" ∷ "--restart" ∷ "unless-stopped" ∷ name ∷ [])
    again ← inspect name
    runs ← check again.running "original container did not restart"
    wait_if_udp service name

  -- `rollback(service, candidate, state)`, for the service's container name
  unfoldable pub rollback_named : String → String → RolloutState → Call W (Unit {0})
  rollback_named service name state = do
    current ← look name
    removed ← remove_candidate name state.old_id current
    original ← look state.backup
    renamed ← rename_original name state.backup state.old_id original
    confirm_original service name state.old_id

  unfoldable pub rollback : String → RolloutState → Call W (Unit {0})
  rollback service state = rollback_named service (container_name service) state

  abbrev pub connect_if_apisix : String → String → Call W (Unit {0})
  connect_if_apisix service name =
      if service == "apisix"
      then command ("network" ∷ "connect" ∷ "ouf-backend" ∷ name ∷ [])
      else done

  -- The body of `try`: `options` are the arguments behind `create --name`.
  unfoldable pub start_candidate :
      String → String → String → List String → String → Call W (Unit {0})
  start_candidate service name backup options digest = do
    updated ← command ("update" ∷ "--restart" ∷ "no" ∷ name ∷ [])
    stopped ← command ("stop" ∷ name ∷ [])
    renamed ← command ("rename" ∷ name ∷ backup ∷ [])
    created ← command ("create" ∷ "--name" ∷ name ∷ options)
    connected ← connect_if_apisix service name
    started ← command ("start" ∷ name ∷ [])
    slept ← pause 5
    current ← inspect name
    good ←
        check ((current.image == digest) && current.running) "candidate exited or has wrong image"
    wait_if_udp service name

  abbrev pub after_rollback :
      Outcome RolloutError (Unit {0}) × W → Outcome RolloutError (Unit {0}) × W
  after_rollback (ok _, w) = (raised (value_error "candidate failed; original restored"), w)
  after_rollback (raised e, w) = (raised e, w)

  -- `except (CalledProcessError, ValueError)`
  abbrev pub or_rollback :
      String
      → String
      → RolloutState
      → Outcome RolloutError (Unit {0}) × W
      → Outcome RolloutError (Unit {0}) × W
  or_rollback service name state (ok _, w) = (ok tt, w)
  or_rollback service name state (raised os_error, w) = (raised os_error, w)
  or_rollback service name state (raised called_process_error, w) =
      after_rollback (rollback_named service name state w)
  or_rollback service name state (raised (value_error e), w) =
      after_rollback (rollback_named service name state w)

  unfoldable pub try_candidate :
      String → String → RolloutState → List String → String → Call W (Unit {0})
  try_candidate service name state options digest w =
      or_rollback service name state (start_candidate service name state.backup options digest w)

  abbrev pub is_missing : Option Container → Bool
  is_missing none = true
  is_missing (some c) = false

  -- `main` with --apply, from the test of the backup's name on.
  unfoldable pub stage : String → String → RolloutState → List String → String → Call W (Unit {0})
  stage service name state options digest = do
    found ← look state.backup
    free ← check (is_missing found) "rollback name already exists"
    saved ← save state
    try_candidate service name state options digest

  -- `main` with --rollback; `api_state` is the file rollout-apisix.json, `none` where it is missing.
  unfoldable pub require_apisix_back : String → Option RolloutState → Call W (Unit {0})
  require_apisix_back service none = done
  require_apisix_back service (some api_state) =
      if service == "udp"
      then (do
        apisix ← inspect "ouf-apisix"
        check (apisix.id == api_state.old_id) "rollback APISIX before UDP")
      else done

  unfoldable pub rollback_command : String → RolloutState → Option RolloutState → Call W (Unit {0})
  rollback_command service state api_state = do
    own ← check (state.service == service) "rollback state differs from service"
    ordered ← require_apisix_back service api_state
    rollback service state
