-- ===== src/Alerts/Landed.antt =====
-- A `send_once` of tools/operational_alert_outbox.py that is over in time.
use ouf_api_gateway.Base.{
  ◌≡◌, ◌⊎◌, false, Option, some, String, [], ok, string_eq, nat_eq, option_eq,
}
use ouf_api_gateway.Alerts.Outbox.{State, Delivery, in_flight, is, find}
use ouf_api_gateway.Alerts.Dispatch.{AlertOutcome}
use ouf_api_gateway.Alerts.Owner.{Grant, Outbox}
use ouf_api_gateway.Alerts.Send.{ProviderCall, Sending, finished}

module _ (authorize : Option String → Option (Option Grant)) (transport_ref : String)
    (send : ProviderCall → Option AlertOutcome) (between meanwhile : Outbox → Outbox) where
  -- Nothing is sent, or what is sent has a settled outcome, which is returned.
  abbrev pub Lands : Sending → Type 0
  Lands r =
      (r.1 ≡ [])
      ⊎ ((id : String) × (s : State) × (e : Delivery) × (r.2 ≡ ok (finished s))
          × (find id r.0.deliveries ≡ some e)
          × (e.state ≡ s)
          × (is in_flight s ≡ false))
