-- ===== src/Incidents.antt =====
-- The durable incidents of the gateway: tools/operational_incidents.py, with the history that the
-- triggers of tools/operational_cursor.py keep of them.
pub mod Store
pub mod Listing
pub mod History
pub mod Summary
mod Tests
