-- ===== src/Alerts/Send.antt =====
-- `send_once` of tools/operational_alert_outbox.py as a whole: the host's authorization, the preview,
-- the transaction that claims, the call of the transport, and the transaction that finishes.
use ouf_api_gateway.Base.{
  ℕ, ◌+◌, false, Option, none, some, String, List, [], ◌∷◌, Outcome, ok, raised, ◌>>=◌,
}
use ouf_api_gateway.Alerts.Outbox.{State, Delivery}
use ouf_api_gateway.Alerts.Dispatch.{
  AlertBlocked, destination_unconfigured, Destination, Claim, capacity_paused, no_eligible_delivery,
  spent, claimed, preview, claim, AlertOutcome, checked_outcome, finish,
}
use ouf_api_gateway.Alerts.Owner.{
  OwnerBlocked, Grant, Configured, Outbox, find_destination, check_grant,
}

pub data SendBlocked : Type 0 where
  by_owner : OwnerBlocked → SendBlocked
  by_outbox : AlertBlocked → SendBlocked

pub data SendStatus : Type 0 where
  capacity_status no_eligible_status exhausted_status : SendStatus
  finished : State → SendStatus

-- The arguments of `transport.send`, without the constant timeout.
pub record ProviderCall : Type 0 where
  pub payload : String
  pub recipient_ref : String
  pub secret_ref : String
  pub delivery_id : String

-- What the call draws and reads of its clock: `now` at its beginning, `later` when it finishes.
pub record Attempt : Type 0 where
  pub now : ℕ
  pub later : ℕ
  pub token : String
  pub factor : ℕ

-- The outbox that is left, the calls of the transport, and what is returned or raised.
abbrev pub Sending : Type 0
Sending = Outbox × List ProviderCall × Outcome SendBlocked SendStatus

abbrev pub row_of : Configured → Destination
row_of c = record {
  destination_ref = c.destination.destination_ref;
  transport_ref = c.destination.transport_ref;
  config_hash = c.config_hash;
}

abbrev pub call_of : Configured → Delivery → ProviderCall
call_of c d = record {
  payload = d.payload;
  recipient_ref = c.destination.recipient_ref;
  secret_ref = c.destination.transport_secret_ref;
  delivery_id = d.delivery_id;
}

abbrev pub id_of : Option Delivery → Option String
id_of none = none
id_of (some d) = some d.delivery_id

abbrev pub with_deliveries : List Delivery → Outbox → Outbox
with_deliveries ds o = record o { deliveries = ds }

abbrev pub landed : Outbox → ProviderCall → Outcome AlertBlocked (List Delivery × State) → Sending
landed o call (raised e) = (o, call ∷ [], raised (by_outbox e))
landed o call (ok (ds, s)) = (with_deliveries ds o, call ∷ [], ok (finished s))

-- `authorize` is the host's answer for the destination and for one of its deliveries, `send` the
-- transport, which may raise. Other workers may change the outbox between the preview and the
-- first transaction, and while the transport is called.
module _ (authorize : Option String → Option (Option Grant)) (transport_ref : String)
    (send : ProviderCall → Option AlertOutcome) (between meanwhile : Outbox → Outbox) where
  abbrev pub checked_preview : Option Configured → Option String → Outcome OwnerBlocked (Unit {0})
  checked_preview existing none = ok tt
  checked_preview existing (some id) =
      check_grant false existing (authorize (some id)) >>= λ g. ok tt

  -- Both checks of the host, and the delivery of the preview.
  abbrev pub admitted : ℕ → String → Outbox → Outcome OwnerBlocked (Option String)
  admitted now ref o = do
    g ← check_grant false (find_destination ref o.destinations) (authorize none)
    previewed ←
        checked_preview (find_destination ref o.destinations) (id_of (preview now ref o.deliveries))
    ok (id_of (preview now ref o.deliveries))

  abbrev pub posted : Attempt → Configured → Delivery → Outbox → Sending
  posted a c d o = landed (meanwhile o) (call_of c d) (
      finish a.later a.factor d.delivery_id a.token (d.version + 1)
        (checked_outcome (send (call_of c d))) (meanwhile o).deliveries)

  abbrev pub launched :
      Attempt → Configured → Outbox → Outcome AlertBlocked (List Delivery × Claim) → Sending
  launched a c o (raised e) = (o, [], raised (by_outbox e))
  launched a c o (ok (ds, capacity_paused)) = (with_deliveries ds o, [], ok capacity_status)
  launched a c o (ok (ds, no_eligible_delivery)) = (with_deliveries ds o, [], ok no_eligible_status)
  launched a c o (ok (ds, spent)) = (with_deliveries ds o, [], ok exhausted_status)
  launched a c o (ok (ds, claimed d)) = posted a c d (with_deliveries ds o)

  abbrev pub transacted : Attempt → Option String → Outbox → Option Configured → Sending
  transacted a previewed o none = (o, [], raised (by_outbox destination_unconfigured))
  transacted a previewed o (some c) =
      launched a c o (claim a.now a.token transport_ref (row_of c) previewed o.deliveries)

  abbrev pub admitted_with :
      Attempt → String → Outbox → Outcome OwnerBlocked (Option String) → Sending
  admitted_with a ref o (raised e) = (o, [], raised (by_owner e))
  admitted_with a ref o (ok previewed) =
      transacted a previewed (between o) (find_destination ref (between o).destinations)

  -- `send_once(destination_ref, transport)`
  unfoldable pub send_once : Attempt → String → Outbox → Sending
  unfolding check_grant find_destination preview claim finish checked_outcome
  send_once a ref o = admitted_with a ref o (admitted a.now ref o)
