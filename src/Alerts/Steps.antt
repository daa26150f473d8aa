-- ===== src/Alerts/Steps.antt =====
-- What every reachable outbox satisfies.
use ouf_api_gateway.Base.{ℕ, ◌≡◌, Option, String, List, [], ok, arith, string_eq}
use ouf_api_gateway.Alerts.Outbox.{State, Delivery}
use ouf_api_gateway.Alerts.Dispatch.{Destination, Claim, AlertOutcome, claim, finish}
use ouf_api_gateway.Alerts.Reconcile.{renew_exhausted_budget, begin_reconciliation, reconcile}
use ouf_api_gateway.Alerts.Enqueue.{enqueue_current}
use ouf_api_gateway.Incidents.Store.{OperationalIncident}
use ouf_api_gateway.Alerts.Machine.{IsBounded, claim-IsBounded}
use ouf_api_gateway.Alerts.Kept.{
  begin-IsBounded, enqueue-IsBounded, finish-IsBounded, reconcile-IsBounded, renew-IsBounded,
}

-- One transaction of the outbox, of whichever worker.
pub data Step (ds : List Delivery) : List Delivery → Type 0 where
  enqueues :
      (now : ℕ) (delivery_id session_id : String) (item : OperationalIncident)
      (ts : List OperationalIncident) (destination minimum_severity config_hash payload : String)
      (ds' : List Delivery)
      → enqueue_current now delivery_id session_id item ts destination minimum_severity config_hash
          payload ds
        ≡ ok ds'
      → Step ds ds'
  claims :
      (now : ℕ) (token transport_ref : String) (config : Destination) (previewed : Option String)
      (ds' : List Delivery) (c : Claim)
      → claim now token transport_ref config previewed ds ≡ ok (ds', c)
      → Step ds ds'
  finishes :
      (now factor : ℕ) (id token : String) (version : ℕ) (o : AlertOutcome) (ds' : List Delivery)
      (s : State)
      → finish now factor id token version o ds ≡ ok (ds', s)
      → Step ds ds'
  renews :
      (now : ℕ) (session_id id : String) (version : ℕ) (reason : String) (ds' : List Delivery)
      → renew_exhausted_budget now session_id id version reason ds ≡ ok ds'
      → Step ds ds'
  begins :
      (transport_ref : String) (config : Destination) (id : String) (version : ℕ)
      (ds' : List Delivery)
      → begin_reconciliation transport_ref config id version ds ≡ ok ds'
      → Step ds ds'
  reconciles :
      (now : ℕ) (id : String) (version : ℕ) (o : AlertOutcome) (ds' : List Delivery) (s : State)
      → reconcile now id version o ds ≡ ok (ds', s)
      → Step ds ds'

pub data Reachable : List Delivery → Type 0 where
  initial : Reachable []
  next : (ds ds' : List Delivery) → Reachable ds → Step ds ds' → Reachable ds'

Step-IsBounded : (ds ds' : List Delivery) → IsBounded ds → Step ds ds' → IsBounded ds'
Step-IsBounded ds _ b (enqueues now i j item ts d m c p ds' h) =
    enqueue-IsBounded now i j item ts d m c p ds ds' b h
Step-IsBounded ds _ b (claims now t r c p ds' k h) = claim-IsBounded now t c r p ds ds' k b h
Step-IsBounded ds _ b (finishes now f i t v o ds' s h) = finish-IsBounded now f i t v o ds ds' s b h
Step-IsBounded ds _ b (renews now j i v r ds' h) = renew-IsBounded now j i v r ds ds' b h
Step-IsBounded ds _ b (begins r c i v ds' h) = begin-IsBounded r c i v ds ds' b h
Step-IsBounded ds _ b (reconciles now i v o ds' s h) = reconcile-IsBounded now i v o ds ds' s b h

-- In every outbox that the transactions reach, in whichever order workers run them, no session has
-- made more attempts than it may, whatever is in flight has a claim and a lease that ends by the
-- deadline of its session, and at most 16 deliveries are in flight, at most 2 to one destination.
pub Reachable-IsBounded : (ds : List Delivery) → Reachable ds → IsBounded ds
Reachable-IsBounded _ initial = record {
  budgeted = tt;
  flying = omega arith;
  flying_to = λ d. omega arith;
}
Reachable-IsBounded _ (next ds ds' r s) = Step-IsBounded ds ds' (Reachable-IsBounded ds r) s
