-- ===== src/Alerts/Dispatch.antt =====
-- `send_once` and `_finish` of tools/operational_alert_outbox.py. The transport is called between
-- two transactions, so `send_once` is two operations: `claim` and `finish`.
use Prim.Native.String
use ouf_api_gateway.Base.{
  ℕ, zero, suc, ◌+◌, ◌*◌, min, max, Bool, true, false, not, ◌||◌, ◌&&◌, Option, none, some, String,
  List, [], ◌∷◌, get_elem?, ◌==◌, ◌≠◌, string_eq, nat_eq, option_eq, if◌then◌else◌, ltb, leb, count,
  Outcome, ok, raised, forbid, ◌>>◌, ◌>>=◌,
}
use ouf_api_gateway.Alerts.Outbox.{
  Phase, problem, critical, recovery, State, pending, in_flight, accepted, paused, unknown,
  exhausted, is, Delivery, seconds, end_session, sweep, change, find, is_flying, is_flying_to,
}

pub data AlertBlocked : Type 0 where
  destination_unconfigured transport_unproven stale_dispatch_result jitter_invalid : AlertBlocked
  delivery_not_found recovery_intent_invalid recovery_conflict : AlertBlocked
  reconciliation_conflict reconciliation_control_exhausted : AlertBlocked

-- A row of `gateway_alert_destination`.
pub record Destination : Type 0 where
  pub destination_ref : String
  pub transport_ref : String
  pub config_hash : String

pub data Claim : Type 0 where
  capacity_paused no_eligible_delivery spent : Claim
  claimed : Delivery → Claim

abbrev pub phase_rank : Phase → ℕ
phase_rank critical = 0
phase_rank problem = 1
phase_rank recovery = 2

abbrev pub is_due : ℕ → String → Delivery → Bool
is_due now destination d =
    (d.destination_ref == destination) && is pending d.state && leb d.next_due now

abbrev pub is_sooner : Delivery → Delivery → Bool
is_sooner a b =
    if phase_rank a.phase ≠ phase_rank b.phase
    then ltb (phase_rank a.phase) (phase_rank b.phase)
    else leb a.next_due b.next_due

abbrev pub sooner : Delivery → Option Delivery → Option Delivery
sooner d none = some d
sooner d (some e) = if is_sooner d e then some d else some e

-- `preview`: the due delivery that goes first.
unfoldable pub preview : ℕ → String → List Delivery → Option Delivery
preview now destination [] = none
preview now destination (d ∷ ds) =
    let rest = preview now destination ds in
    if is_due now destination d then sooner d rest else rest

unfoldable pub fly : ℕ → String → Delivery → Delivery
fly now token d = record d {
  state = in_flight;
  version = d.version + 1;
  total_attempts = d.total_attempts + 1;
  claim_token = some token;
  lease_until = some (min (now + seconds 10) d.session.deadline);
  session = record d.session { attempts = d.session.attempts + 1 };
}

unfoldable pub give_up : Delivery → Delivery
give_up d = record d { state = exhausted; version = d.version + 1 }

abbrev pub is_full : String → List Delivery → Bool
is_full destination ds = leb 16 (count is_flying ds) || leb 2 (count (is_flying_to destination) ds)

-- The row of the preview, if it is still due.
abbrev pub still_due : ℕ → String → Option Delivery → Option Delivery
still_due now destination none = none
still_due now destination (some d) = if is_due now destination d then some d else none

-- What becomes of the row that was found.
unfoldable pub take_off :
    ℕ → String → Destination → List Delivery → Option Delivery → List Delivery × Claim
unfolding fly give_up
take_off now token config ds none = (ds, no_eligible_delivery)
take_off now token config ds (some d) =
    if (d.config_hash ≠ config.config_hash) || ltb d.session.deadline (now + seconds 5)
    then (change d.delivery_id give_up ds, spent)
    else (change d.delivery_id (fly now token) ds, claimed d)

abbrev pub find_previewed : Option String → List Delivery → Option Delivery
find_previewed none ds = none
find_previewed (some id) ds = find id ds

abbrev pub launch : ℕ → String → Destination → Option String → List Delivery → List Delivery × Claim
launch now token config previewed ds =
    if is_full config.destination_ref ds
    then (ds, capacity_paused)
    else take_off now token config ds
        (still_due now config.destination_ref (find_previewed previewed ds))

-- The transaction of `send_once`: the sweep, the limits on what is in flight, and the claim of the
-- delivery that the preview named.
unfoldable pub claim :
    ℕ
    → String
    → String
    → Destination
    → Option String
    → List Delivery
    → Outcome AlertBlocked (List Delivery × Claim)
unfolding take_off
claim now token transport_ref config previewed ds = do
  forbid (transport_ref ≠ config.transport_ref) transport_unproven
  ok (launch now token config previewed (sweep now ds))

pub data OutcomeKind : Type 0 where
  accepted_kind transient_not_accepted permanent unknown_kind : OutcomeKind

pub record AlertOutcome : Type 0 where
  pub kind : OutcomeKind
  pub receipt_ref : String
  pub retry_after_seconds : ℕ

abbrev pub backoff : List ℕ
backoff = 5 ∷ 15 ∷ 60 ∷ 300 ∷ 900 ∷ []

-- `BACKOFF[min(attempts-1, len(BACKOFF)-1)]`: index -1 is the last entry.
abbrev pub backoff_at : ℕ → ℕ
backoff_at zero = 900
backoff_at (suc n) = elim (get_elem? backoff (min n 4)) [ none ↦ 900 | some s ↦ s ]

abbrev pub state_of : OutcomeKind → State
state_of accepted_kind = accepted
state_of permanent = paused
state_of unknown_kind = unknown
state_of transient_not_accepted = pending

abbrev pub is_lease_over : ℕ → Option ℕ → Bool
is_lease_over now none = true
is_lease_over now (some lease) = leb lease now

-- The result is stale: another state, claim or version, or a lease that is over.
unfoldable pub is_stale : ℕ → String → ℕ → Delivery → Bool
is_stale now token version d =
    not (is in_flight d.state)
    || (d.claim_token ≠ some token)
    || (d.version ≠ version)
    || is_lease_over now d.lease_until

-- `factor` is the jitter in thousandths; the delay is in milliseconds.
abbrev pub retry_at : ℕ → ℕ → Delivery → AlertOutcome → ℕ
retry_at now factor d o =
    now + max (backoff_at d.session.attempts * factor) (seconds o.retry_after_seconds)

abbrev pub retry_state : ℕ → Delivery → State
retry_state due d =
    if leb d.session.max_attempts d.session.attempts || leb d.session.deadline (due + seconds 5)
    then exhausted
    else pending

-- The state and the due time after an outcome.
unfoldable pub settled : ℕ → ℕ → Delivery → AlertOutcome → Outcome AlertBlocked (State × ℕ)
settled now factor d o =
    if is pending (state_of o.kind)
    then (if leb 800 factor && leb factor 1200
        then ok (retry_state (retry_at now factor d o) d, retry_at now factor d o)
        else raised jitter_invalid)
    else ok (state_of o.kind, now)

unfoldable pub land : State × ℕ → AlertOutcome → Delivery → Delivery
land (s, due) o d =
    let landed = record d {
      state = s;
      version = d.version + 1;
      next_due = due;
      claim_token = none;
      lease_until = none;
      receipt_ref = some o.receipt_ref;
    } in
    if is pending s then landed else end_session s landed

abbrev pub found : AlertBlocked → Option Delivery → Outcome AlertBlocked Delivery
found e none = raised e
found e (some d) = ok d

-- `_finish`
unfoldable pub finish :
    ℕ
    → ℕ
    → String
    → String
    → ℕ
    → AlertOutcome
    → List Delivery
    → Outcome AlertBlocked (List Delivery × State)
unfolding is_stale settled land
finish now factor delivery token version o ds = do
  d ← found stale_dispatch_result (find delivery ds)
  forbid (is_stale now token version d) stale_dispatch_result
  result ← settled now factor d o
  ok (change delivery (land result o) ds, result.0)

abbrev pub unknown_outcome : AlertOutcome
unknown_outcome = record { kind = unknown_kind; receipt_ref = ""; retry_after_seconds = 0 }

abbrev pub is_accepted_kind : OutcomeKind → Bool
is_accepted_kind accepted_kind = true
is_accepted_kind _ = false

-- What `send_once` makes of the transport's answer; `none` stands for whatever the transport raises.
unfoldable pub checked_outcome : Option AlertOutcome → AlertOutcome
checked_outcome none = unknown_outcome
checked_outcome (some o) =
    if ltb 86400 o.retry_after_seconds
      || ltb 200 (String.count o.receipt_ref)
      || (is_accepted_kind o.kind && (o.receipt_ref == ""))
    then unknown_outcome
    else o
