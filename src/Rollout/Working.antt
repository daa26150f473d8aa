-- ===== src/Rollout/Working.antt =====
-- What the rollback of ops/apisix/rollout_r4a_runtime.py relies on of docker to go through, and calls that cannot raise on it.
use ouf_api_gateway.Base.{
  Bool, true, false, Option, none, some, String, [], ◌∷◌, nat_eq, string_eq, ◌≡◌, refl, arith,
}
use ouf_api_gateway.Rollout.{
  Container, RolloutError, called_process_error, Docker, check, inspected, attempted, ran,
}
use ouf_api_gateway.Rollout.Held.{Ends, Leads}

-- A docker that does what its commands are documented to do on a container that is there: `alive`
-- says whether a name's container runs. A container that runs is not removed.
pub record IsWorking {W : Type 0} (docker : Docker W) (named : W → String → Option String)
    (alive : W → String → Bool) : Type 0 where
  pub finds :
      (name : String) (w : W) (id : String)
      → named w name ≡ some id
      → (c : Container) × ((docker.inspect name w).0 ≡ some c)
        × (c.id ≡ id)
        × (c.running ≡ alive w name)
  pub misses : (name : String) (w : W) → named w name ≡ none → (docker.inspect name w).0 ≡ none
  pub inspect_keeps_alive :
      (name : String) (w : W) (j : String) → alive (docker.inspect name w).1 j ≡ alive w j
  pub start_runs :
      (name : String) (w : W) (id : String)
      → named w name ≡ some id
      → ((docker.run ("start" ∷ name ∷ []) w).0 ≡ true)
        × (alive (docker.run ("start" ∷ name ∷ []) w).1 name ≡ true)
  pub stop_stops :
      (name : String) (w : W) (id : String)
      → named w name ≡ some id
      → ((docker.run ("stop" ∷ name ∷ []) w).0 ≡ true)
        × (alive (docker.run ("stop" ∷ name ∷ []) w).1 name ≡ false)
  pub update_keeps :
      (policy name : String) (w : W) (id : String)
      → named w name ≡ some id
      → ((docker.run ("update" ∷ "--restart" ∷ policy ∷ name ∷ []) w).0 ≡ true)
        × (alive (docker.run ("update" ∷ "--restart" ∷ policy ∷ name ∷ []) w).1 name ≡ alive w name)
  pub rm_frees :
      (name : String) (w : W) (id : String)
      → named w name ≡ some id
      → alive w name ≡ false
      → ((docker.run ("rm" ∷ name ∷ []) w).0 ≡ true)
        × (named (docker.run ("rm" ∷ name ∷ []) w).1 name ≡ none)
  pub rename_succeeds :
      (from to id : String) (w : W)
      → named w from ≡ some id
      → named w to ≡ none
      → (docker.run ("rename" ∷ from ∷ to ∷ []) w).0 ≡ true

abbrev pub Never : {W : Type 0} → RolloutError → W → Type 0
Never e w = ⊥

pub ran-Ends :
    {W : Type 0} (Q : W → Type 0) (x : Bool × W)
    → x.0 ≡ true
    → Q x.1
    → Ends (λ (_ : Unit {0}). Q) Never (ran called_process_error x)
ran-Ends Q (true, w) h q = q
ran-Ends Q (false, w) h q = absurd (ground arith)

pub attempted-Ends :
    {W : Type 0} (Q : Option Container → W → Type 0) (x : Option Container × W)
    → Q x.0 x.1
    → Ends Q Never (attempted x)
attempted-Ends Q (c, w) q = q

pub inspected-Ends :
    {W : Type 0} (Q : Container → W → Type 0) (x : Option Container × W) (c : Container)
    → x.0 ≡ some c
    → ((d : Container) → x.0 ≡ some d → Q d x.1)
    → Ends Q Never (inspected x)
inspected-Ends Q (none, w) c h q = absurd (ground arith)
inspected-Ends Q (some d, w) c h q = q d refl

pub check-Returns :
    {W : Type 0} (P : W → Type 0) (b : Bool) (message : String)
    → ((w : W) → P w → b ≡ true)
    → Leads P (check b message) (λ _. P) Never
unfolding check
check-Returns P true message h = record { at = λ w p. p }
check-Returns P false message h = record { at = λ w p. let q = h w p in ground (arith, q) }
