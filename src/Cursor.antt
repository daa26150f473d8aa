-- ===== src/Cursor.antt =====
-- The owner's snapshots of the incidents and their pages: tools/operational_cursor.py.
pub mod Snapshot
pub mod Pages
pub mod Bounds
pub mod Contract
pub mod Captured
pub mod Keyed
pub mod Walk
pub mod Finish
mod Tests
