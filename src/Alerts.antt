-- ===== src/Alerts.antt =====
-- The alert outbox: tools/operational_alert_outbox.py.
pub mod Outbox
pub mod Dispatch
pub mod Reconcile
pub mod Enqueue
pub mod Owner
pub mod Governance
pub mod Budget
pub mod Capacity
pub mod Machine
pub mod Kept
pub mod Steps
pub mod Send
pub mod Claimed
pub mod Sent
pub mod Landed
mod Tests
