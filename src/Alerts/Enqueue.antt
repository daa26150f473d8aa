-- ===== src/Alerts/Enqueue.antt =====
-- `_enqueue_current` of tools/operational_alert_outbox.py.
use Prim.Native.String
use ouf_api_gateway.Base.{
  ℕ, ◌+◌, Bool, true, false, not, ◌||◌, ◌&&◌, none, String, List, [], ◌∷◌, ◌++◌, ◌==◌, string_eq,
  nat_eq, if◌then◌else◌, ltb, leb, Outcome, ok, forbid, ◌>>◌, any, count, length, select,
}
use ouf_api_gateway.Incidents.Store.{resolved, OperationalIncident}
use ouf_api_gateway.Incidents.Listing.{is_in, rank}
use ouf_api_gateway.Alerts.Outbox.{
  Phase, problem, critical, recovery, pending, accepted, cancelled, is, Delivery, seconds, active,
}

pub data EnqueueBlocked : Type 0 where
  outbox_capacity payload_capacity : EnqueueBlocked

abbrev pub is_resolved_row : OperationalIncident → Bool
is_resolved_row t = is_in resolved t.lifecycle_state

abbrev pub was_resolved : List OperationalIncident → Bool
was_resolved [] = false
was_resolved (t ∷ ts) = is_resolved_row t

-- How often the transitions of one incident, the newest first, went into RESOLVED.
unfoldable pub crossings : List OperationalIncident → ℕ
crossings [] = 0
crossings (t ∷ ts) = (if is_resolved_row t && not (was_resolved ts) then 1 else 0) + crossings ts

abbrev pub closures : String → List OperationalIncident → ℕ
closures id ts = crossings (select (λ (t : OperationalIncident). t.incident_id == id) ts)

abbrev pub episode_of : OperationalIncident → List OperationalIncident → ℕ
episode_of item ts =
    if is_resolved_row item then closures item.incident_id ts else closures item.incident_id ts + 1

abbrev pub phase_of : OperationalIncident → Phase
phase_of item =
    if is_resolved_row item
    then recovery
    else if item.severity == "CRITICAL"
    then critical
    else problem

unfoldable pub same_phase : Phase → Phase → Bool
same_phase problem problem = true
same_phase critical critical = true
same_phase recovery recovery = true
same_phase _ _ = false

abbrev pub is_alert_of : String → String → ℕ → Delivery → Bool
is_alert_of incident destination episode d =
    (d.incident_id == incident) && (d.destination_ref == destination) && (d.episode == episode)

-- The alert is not wanted: a recovery of which no problem was announced, a severity below the
-- destination's, or an alert that is there already.
unfoldable pub is_skipped :
    OperationalIncident → List OperationalIncident → String → String → List Delivery → Bool
unfolding same_phase
is_skipped item ts destination minimum_severity ds =
    (if is_resolved_row item
      then not (
          any
            (λ d.
              is_alert_of item.incident_id destination (episode_of item ts) d
              && not (same_phase d.phase recovery))
            ds)
      else ltb (rank item.severity) (rank minimum_severity))
    || any
        (λ d.
          is_alert_of item.incident_id destination (episode_of item ts) d
          && same_phase d.phase (phase_of item))
        ds

abbrev pub is_active : Delivery → Bool
is_active d = not (is accepted d.state || is cancelled d.state)

abbrev pub is_active_to : String → Delivery → Bool
is_active_to destination d = (d.destination_ref == destination) && is_active d

abbrev pub at_capacity : String → List Delivery → Bool
at_capacity destination ds =
    leb 4096 (length ds)
    || leb 1024 (count is_active ds)
    || leb 128 (count (is_active_to destination) ds)

unfoldable pub new_delivery :
    ℕ → String → String → OperationalIncident → ℕ → String → String → String → Delivery
new_delivery now delivery_id session_id item episode destination config_hash payload = record {
  delivery_id = delivery_id;
  incident_id = item.incident_id;
  destination_ref = destination;
  episode = episode;
  phase = phase_of item;
  payload = payload;
  config_hash = config_hash;
  state = pending;
  version = 0;
  total_attempts = 0;
  next_due = now;
  lease_until = none;
  claim_token = none;
  receipt_ref = none;
  session = record {
    session_id = session_id;
    deadline = now + seconds 86400;
    max_attempts = 128;
    attempts = 0;
    state = active;
  };
  reconciliation_attempts = 0;
}

-- `payload` is the encoded JSON, the two ids are the `uuid4()`s of the call, and `ts` is the history
-- of the incidents.
unfoldable pub enqueue_current :
    ℕ
    → String
    → String
    → OperationalIncident
    → List OperationalIncident
    → String
    → String
    → String
    → String
    → List Delivery
    → Outcome EnqueueBlocked (List Delivery)
unfolding is_skipped new_delivery
enqueue_current now delivery_id session_id item ts destination minimum_severity config_hash payload
      ds =
    let added = do
      forbid (at_capacity destination ds) outbox_capacity
      forbid (ltb 4096 (String.len payload)) payload_capacity
      ok (
          ds
          ++ (new_delivery now delivery_id session_id item (episode_of item ts) destination
                config_hash payload
              ∷ []))
    in if is_skipped item ts destination minimum_severity ds then ok ds else added
