-- ===== src/Etcd.antt =====
-- The publication and restore gate of tools/etcd_resilience.py.
pub mod Gate
pub mod Safety
mod Tests
