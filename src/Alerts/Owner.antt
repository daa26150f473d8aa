-- ===== src/Alerts/Owner.antt =====
-- `_authorize`, `configure` and `reconcile_owner_transitions` of tools/operational_alert_outbox.py.
use Prim.Native.String
use ouf_api_gateway.Base.{
  ℕ, ◌+◌, Bool, true, false, not, ◌&&◌, Option, none, some, String, List, [], ◌∷◌, ◌==◌, ◌≠◌,
  string_eq, nat_eq, if◌then◌else◌, ltb, leb, length, all, contains, take, Outcome, ok, raised,
  forbid, require, ◌>>◌, ◌>>=◌,
}
use ouf_api_gateway.Incidents.Store.{OperationalIncident}
use ouf_api_gateway.Alerts.Outbox.{Delivery}
use ouf_api_gateway.Alerts.Enqueue.{EnqueueBlocked, enqueue_current}

pub data OwnerBlocked : Type 0 where
  authorization_unavailable authorization_denied verified_identity_unproven
        tenant_context_mismatch :
      OwnerBlocked
  human_required destination_invalid reference_required policy_unproven intent_conflict :
      OwnerBlocked
  destination_capacity unconfigured reconcile_limit receipt_capacity : OwnerBlocked
  enqueue_blocked : EnqueueBlocked → OwnerBlocked

-- What the host's authorization answers; `same_resource` says that it evaluated this resource.
pub record Grant : Type 0 where
  pub allowed : Bool
  pub same_resource : Bool
  pub principal : String
  pub decision_ref : String
  pub policy_ref : String
  pub actor : String
  pub tenant : String

-- `AlertDestination`
pub record AlertDestination : Type 0 where
  pub destination_ref : String
  pub recipient_ref : String
  pub transport_ref : String
  pub transport_secret_ref : String
  pub policy_ref : String
  pub minimum_severity : String

-- A row of `gateway_alert_destination`.
pub record Configured : Type 0 where
  pub destination : AlertDestination
  pub config_hash : String
  pub authority_tenant : String

-- The tables that `configure` and the reconciliation write; a receipt is a revision for a
-- destination.
pub record Outbox : Type 0 where
  pub destinations : List Configured
  pub audits : List (String × String)
  pub receipts : List (String × ℕ)
  pub deliveries : List Delivery

unfoldable pub find_destination : String → List Configured → Option Configured
find_destination ref [] = none
find_destination ref (c ∷ cs) =
    if c.destination.destination_ref == ref then some c else find_destination ref cs

abbrev pub is_short : String → Bool
is_short s = leb 1 (String.count s) && leb (String.count s) 200

abbrev pub is_same_tenant : Grant → Option Configured → Bool
is_same_tenant g none = true
is_same_tenant g (some c) = c.authority_tenant == g.tenant

-- `_authorize`: `none` where there is no authorization of the host, or where it answers no grant.
unfoldable pub check_grant :
    Bool → Option Configured → Option (Option Grant) → Outcome OwnerBlocked Grant
check_grant human existing none = raised authorization_unavailable
check_grant human existing (some none) = raised authorization_denied
check_grant human existing (some (some g)) = do
  require
      (g.allowed
        && g.same_resource
        && not (g.decision_ref == "")
        && not (g.principal == "")
        && not (g.policy_ref == "")
        && contains ("HUMAN" ∷ "SERVICE" ∷ []) g.actor)
      authorization_denied
  require
      (is_short g.tenant
        && is_short g.principal
        && is_short g.decision_ref
        && is_short g.policy_ref)
      verified_identity_unproven
  require (is_same_tenant g existing) tenant_context_mismatch
  forbid (human && (g.actor ≠ "HUMAN")) human_required
  ok g

abbrev pub fields : AlertDestination → List String
fields d =
    d.destination_ref ∷ d.recipient_ref ∷ d.transport_ref ∷ d.transport_secret_ref ∷ d.policy_ref
    ∷ d.minimum_severity ∷ []

abbrev pub references : AlertDestination → List String
references d = d.destination_ref ∷ d.recipient_ref ∷ d.transport_ref ∷ d.transport_secret_ref ∷ []

abbrev pub store_destination :
    String → AlertDestination → Grant → Outbox → Option Configured → Outcome OwnerBlocked Outbox
store_destination hash d g o (some old) =
    if old.config_hash ≠ hash then raised intent_conflict else ok o
store_destination hash d g o none =
    if leb 32 (length o.destinations)
    then raised destination_capacity
    else ok (record o {
      destinations =
          record { destination = d; config_hash = hash; authority_tenant = g.tenant }
          ∷ o.destinations;
      audits = (d.destination_ref, g.decision_ref) ∷ o.audits;
    })

-- `configure`; `is_reference` is the match with the pattern of a reference, `hash` the fingerprint
-- of the encoded destination, and `grant` what the host answers. Other workers may change the outbox
-- between the authorization, which reads the destination's tenant, and the transaction.
unfoldable pub configure :
    (String → Bool)
    → String
    → Option (Option Grant)
    → (Outbox → Outbox)
    → AlertDestination
    → Outbox
    → Outcome OwnerBlocked Outbox
unfolding check_grant find_destination
configure is_reference hash grant between d o = do
  require
      (all is_short (fields d)
        && contains ("WARNING" ∷ "ERROR" ∷ "CRITICAL" ∷ []) d.minimum_severity)
      destination_invalid
  require (all is_reference (references d)) reference_required
  g ← check_grant true (find_destination d.destination_ref o.destinations) grant
  forbid (g.policy_ref ≠ d.policy_ref) policy_unproven
  store_destination hash d g (between o)
      (find_destination d.destination_ref (between o).destinations)

-- One incident of the loop, with the ids and the payload of its delivery: what is enqueued, and the
-- receipt of its revision.
pub record Due : Type 0 where
  pub item : OperationalIncident
  pub revision : ℕ
  pub delivery_id : String
  pub session_id : String
  pub payload : String

abbrev pub receipted :
    String → ℕ → Outbox → Outcome EnqueueBlocked (List Delivery) → Outcome OwnerBlocked Outbox
receipted ref revision o (raised e) = raised (enqueue_blocked e)
receipted ref revision o (ok ds) =
    ok (record o { deliveries = ds; receipts = (ref, revision) ∷ o.receipts })

-- The loop over the incidents that have a transition without a receipt.
unfoldable pub enqueue_all :
    ℕ → List OperationalIncident → Configured → List Due → Outbox → Outcome OwnerBlocked Outbox
enqueue_all now ts c [] o = ok o
enqueue_all now ts c (d ∷ due) o =
    receipted c.destination.destination_ref d.revision o (
      enqueue_current now d.delivery_id d.session_id d.item ts c.destination.destination_ref
        c.destination.minimum_severity c.config_hash d.payload o.deliveries)
    >>= λ o'. enqueue_all now ts c due o'

abbrev pub configured : Option Configured → Outcome OwnerBlocked Configured
configured none = raised unconfigured
configured (some c) = ok c

-- `reconcile_owner_transitions` on the incidents that are due, in the order of the source's query:
-- a failure rolls back the receipts, so the call returns no outbox. Other workers
-- may change the outbox between the authorization and the transaction.
unfoldable pub reconcile_owner_transitions :
    ℕ
    → ℕ
    → String
    → Option (Option Grant)
    → (Outbox → Outbox)
    → List OperationalIncident
    → List Due
    → Outbox
    → Outcome OwnerBlocked Outbox
unfolding check_grant find_destination enqueue_all
reconcile_owner_transitions now limit ref grant between ts due o = do
  require (leb 1 limit && leb limit 64) reconcile_limit
  g ← check_grant false (find_destination ref o.destinations) grant
  c ← configured (find_destination ref (between o).destinations)
  forbid (ltb 200000 (length (between o).receipts + limit)) receipt_capacity
  enqueue_all now ts c (take limit due) (between o)
