-- ===== src/Rollout/Tests/Returned.antt =====
-- A docker in memory that keeps a running container, and a rollback on it.
use ouf_api_gateway.Base.{
  Bool, true, false, Option, none, some, String, List, [], ◌∷◌, ◌==◌, string_eq, if◌then◌else◌,
}
use ouf_api_gateway.Rollout.{Container, Docker}
use ouf_api_gateway.Rollout.Tests.{World, removed, renamed, created}

abbrev turned : Bool → Option Container → Option Container
turned b none = none
turned b (some c) = some (record c { running = b })

abbrev is_there : Option Container → Bool
is_there none = false
is_there (some c) = true

abbrev switched : Bool → List String → World → Bool × World
switched b [] w = (false, w)
switched b (name ∷ args) w = (
  is_there (w.rows name),
  record w { rows = λ j. if name == j then turned b (w.rows j) else w.rows j },
)

-- A container that runs is not removed.
abbrev dropped : Option Container → String → World → Bool × World
dropped none name w = (false, w)
dropped (some c) name w = if c.running then (false, w) else removed (name ∷ []) w

abbrev discarded : List String → World → Bool × World
discarded [] w = (false, w)
discarded (name ∷ args) w = dropped (w.rows name) name w

abbrev obey : List String → World → Bool × World
obey [] w = (true, w)
obey (command ∷ args) w =
    if command == "rm"
    then discarded args w
    else if command == "rename"
    then renamed args w
    else if command == "create"
    then created args w
    else if command == "start"
    then switched true args w
    else if command == "stop"
    then switched false args w
    else (true, w)

abbrev runs : Option Container → Bool
runs none = false
runs (some c) = c.running

abbrev alive : World → String → Bool
alive w j = runs (w.rows j)

abbrev steady : Docker World
steady = record {
  inspect = λ name w. (w.rows name, w);
  run = obey;
  sleep = λ seconds w. w;
  save_state = λ rollout w. (true, w);
}
