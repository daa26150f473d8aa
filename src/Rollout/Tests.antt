-- ===== src/Rollout/Tests.antt =====
-- A docker in memory, whose service answers its probe after some pauses, and runs of the script.
mod Returned
use ouf_api_gateway.Base.{
  ℕ, zero, suc, ◌-◌, ◌<◌, Bool, true, false, Option, none, some, String, List, [], ◌∷◌, ◌==◌,
  string_eq, nat_eq, ok, raised, if◌then◌else◌, ◌≡◌, refl, ap, arith, inr, beq_refl,
}
use ouf_api_gateway.Rollout.{
  Container, RolloutState, value_error, Docker, readiness, wait_udp_ready, rollback, stage, ◌>>=◌,
  look, check, save, try_candidate, start_candidate, command, pause, inspect, rollback_named,
  remove_candidate, rename_original, confirm_original, done, wait_from, rollback_command,
}
use ouf_api_gateway.Rollout.Ready.{before_probe, answers}
use ouf_api_gateway.Rollout.Held.{IsDocker, Ends, Lost, IsNamed, IsHeld, is_naming}
use ouf_api_gateway.Rollout.Ordered.{IsUnchanged, rollback_command-IsOrdered}
use ouf_api_gateway.Rollout.Staged.{IsUnstaged, stage-KeepsOriginal}

pub record World : Type 0 where
  pub rows : String → Option Container
  pub ready_in : ℕ

abbrev pub id_of : Option Container → Option String
id_of none = none
id_of (some c) = some c.id

abbrev pub named : World → String → Option String
named w j = id_of (w.rows j)

abbrev candidate : Container
candidate = record { id = "candidate"; image = "other image"; running = true }

abbrev pub removed : List String → World → Bool × World
removed [] w = (false, w)
removed (name ∷ args) w = (true, record w { rows = λ j. if name == j then none else w.rows j })

abbrev pub moved : Option Container → String → String → World → Bool × World
moved none from to w = (false, w)
moved (some c) from to w = (
  true,
  record w { rows = λ j. if to == j then some c else if from == j then none else w.rows j },
)

abbrev pub renamed : List String → World → Bool × World
renamed [] w = (false, w)
renamed (from ∷ []) w = (false, w)
renamed (from ∷ to ∷ args) w = moved (w.rows from) from to w

abbrev pub created : List String → World → Bool × World
created [] w = (false, w)
created (option ∷ []) w = (false, w)
created (option ∷ name ∷ args) w =
    (true, record w { rows = λ j. if name == j then some candidate else w.rows j })

abbrev other : String → World → Bool × World
other command w = (if command == "exec" then w.ready_in == 0 else true, w)

abbrev run : List String → World → Bool × World
run [] w = (false, w)
run (command ∷ args) w =
    if command == "rm"
    then removed args w
    else if command == "rename"
    then renamed args w
    else if command == "create"
    then created args w
    else other command w

abbrev docker : Docker World
docker = record {
  inspect = λ name w. (w.rows name, w);
  run = run;
  sleep = λ seconds w. record w { ready_in = w.ready_in - 1 };
  save_state = λ state w. (true, w);
}

kept :
    (args : List String) (w : World) (j : String)
    → is_naming args ≡ false
    → named (run args w).1 j ≡ named w j
kept [] w j h = refl
kept (command ∷ args) w j h =
    let a : (command == "rm") ≡ false = ground arith in
    let b : (command == "rename") ≡ false = ground arith in
    let c : (command == "create") ≡ false = ground arith in rw (a, b, c) refl

pub moves :
    (o : Option Container) (from to : String) (w : World)
    → (moved o from to w).0 ≡ true
    → named (moved o from to w).1 to ≡ id_of o
moves none from to w h = absurd (ground arith)
moves (some c) from to w h = rw (beq_refl to) refl

pub stays :
    (o : Option Container) (from to : String) (w : World) (j : String)
    → (moved o from to w).0 ≡ false
    → named (moved o from to w).1 j ≡ named w j
stays none from to w j h = refl
stays (some c) from to w j h = absurd (ground arith)

laws : IsDocker docker named
laws = record {
  inspect_keeps = λ name w j. refl;
  inspect_tells = λ name w c q. ap id_of q;
  other_keeps = kept;
  rm_keeps = λ name w j apart. rw apart refl;
  create_keeps = λ name options w j apart. rw apart refl;
  rename_moves = λ from to w h. moves (w.rows from) from to w h;
  rename_fails = λ from to w j h. stays (w.rows from) from to w j h;
  sleep_keeps = λ seconds w j. refl;
  save_keeps = λ state w j. refl;
}

abbrev original : Container
original = record { id = "original"; image = "reviewed"; running = true }

abbrev pub state : RolloutState
state = record { service = "apisix"; old_id = "original"; backup = "ouf-apisix-r4a-original" }

abbrev before : World
before = record { rows = λ j. if j == "ouf-apisix" then some original else none; ready_in = 1 }

-- A staging that has stopped behind its rename.
abbrev pub interrupted : World
interrupted = record {
  rows = λ j.
      if j == "ouf-apisix"
      then some candidate
      else if j == "ouf-apisix-r4a-original"
      then some original
      else none;
  ready_in = 1;
}

wrong_image :
    (stage docker "apisix" "ouf-apisix" state [] "expected image" before).0
    ≡ raised (value_error "candidate failed; original restored")
unfolding stage ◌>>=◌ look check save try_candidate start_candidate command pause inspect
    rollback_named remove_candidate rename_original confirm_original done
wrong_image = refl

ready_later : (wait_udp_ready docker "ouf-udp" 2 before).0 ≡ ok tt
unfolding wait_udp_ready wait_from
ready_later = refl

stage-KeepsOriginal_example :
    Ends
      (λ (_ : Unit {0}). IsNamed docker laws "ouf-apisix-r4a-original" "original")
      (IsUnstaged docker laws "ouf-apisix" state)
      (stage docker "apisix" "ouf-apisix" state [] "expected image" before)
stage-KeepsOriginal_example =
    stage-KeepsOriginal docker laws "ouf-apisix" state "apisix" [] "expected image" before refl refl

abbrev udp_state : RolloutState
udp_state = record { service = "udp"; old_id = "old udp"; backup = "ouf-udp-r4a-original" }

rollback_command-IsOrdered_example :
    Ends
      (λ (_ : Unit {0}) _. ⊥)
      (λ _. IsUnchanged docker laws interrupted)
      (rollback_command docker "udp" udp_state (some state) interrupted)
rollback_command-IsOrdered_example =
    rollback_command-IsOrdered docker laws interrupted udp_state state "candidate" refl refl
