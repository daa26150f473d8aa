-- ===== src/Alerts/Outbox.antt =====
-- The tables of tools/operational_alert_outbox.py, and the sweep that `send_once` begins with.
-- A time is in milliseconds, so that a jitter in thousandths of a second's delay stays exact.
-- A delivery holds its active budget session, which the source joins to it by `active_session`.
use ouf_api_gateway.Base.{
  ℕ, ◌+◌, ◌*◌, Bool, true, false, ◌||◌, ◌&&◌, Option, none, some, String, List, [], ◌∷◌, ◌==◌,
  string_eq, nat_eq, if◌then◌else◌, leb,
}

pub data Phase : Type 0 where
  problem critical recovery : Phase

pub data State : Type 0 where
  pending in_flight accepted paused unknown exhausted cancelled : State

unfoldable pub is : State → State → Bool
is pending pending = true
is in_flight in_flight = true
is accepted accepted = true
is paused paused = true
is unknown unknown = true
is exhausted exhausted = true
is cancelled cancelled = true
is _ _ = false

pub data SessionState : Type 0 where
  active : SessionState
  ended : State → SessionState

-- `gateway_alert_budget_session`
pub record Session : Type 0 where
  pub session_id : String
  pub deadline : ℕ
  pub max_attempts : ℕ
  pub attempts : ℕ
  pub state : SessionState

-- `gateway_alert_delivery`
pub record Delivery : Type 0 where
  pub delivery_id : String
  pub incident_id : String
  pub destination_ref : String
  pub episode : ℕ
  pub phase : Phase
  pub payload : String
  pub config_hash : String
  pub state : State
  pub version : ℕ
  pub total_attempts : ℕ
  pub next_due : ℕ
  pub lease_until : Option ℕ
  pub claim_token : Option String
  pub receipt_ref : Option String
  pub session : Session
  pub reconciliation_attempts : ℕ

abbrev pub seconds : ℕ → ℕ
seconds n = n * 1000

abbrev pub end_session : State → Delivery → Delivery
end_session s d = record d { session = record d.session { state = ended s } }

abbrev pub has_lapsed : ℕ → Option ℕ → Bool
has_lapsed now none = false
has_lapsed now (some lease) = leb lease now

-- A worker whose lease is over: its outcome is ambiguous.
unfoldable pub expire : ℕ → Delivery → Delivery
expire now d =
    if is in_flight d.state && has_lapsed now d.lease_until
    then record d { state = unknown; version = d.version + 1; claim_token = none }
    else d

unfoldable pub is_spent : ℕ → Session → Bool
is_spent now s = leb s.deadline now || leb s.max_attempts s.attempts

unfoldable pub exhaust : ℕ → Delivery → Delivery
unfolding is_spent
exhaust now d =
    if is pending d.state && is_spent now d.session
    then record d { state = exhausted; version = d.version + 1 }
    else d

-- The sessions of the exhausted and of the unknown deliveries end.
unfoldable pub sync : Delivery → Delivery
sync d =
    if is exhausted d.state
    then end_session exhausted d
    else if is unknown d.state
    then end_session unknown d
    else d

unfoldable pub sweep : ℕ → List Delivery → List Delivery
unfolding expire exhaust sync
sweep now [] = []
sweep now (d ∷ ds) = sync (exhaust now (expire now d)) ∷ sweep now ds

-- `update ... where delivery_id=?`: the id is the primary key.
unfoldable pub change : String → (Delivery → Delivery) → List Delivery → List Delivery
change id f [] = []
change id f (d ∷ ds) = if d.delivery_id == id then f d ∷ ds else d ∷ change id f ds

-- `select ... where delivery_id=?`
unfoldable pub find : String → List Delivery → Option Delivery
find id [] = none
find id (d ∷ ds) = if d.delivery_id == id then some d else find id ds

abbrev pub is_flying : Delivery → Bool
is_flying d = is in_flight d.state

abbrev pub is_flying_to : String → Delivery → Bool
is_flying_to destination d = is in_flight d.state && (d.destination_ref == destination)
