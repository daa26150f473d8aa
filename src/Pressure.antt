-- ===== src/Pressure.antt =====
-- tools/operational_pressure.py: the owner's pressure decision for each registered scope.
-- Instants and spans are whole microseconds, the resolution of `datetime`; a span of n seconds is
-- `seconds n`. The table `gateway_pressure_scope` is a dict of frames by `scope_ref`.
pub mod Floats
pub mod Transition
pub mod Decision
pub mod Accepted
pub mod Coherence
pub mod Recovery
pub mod Setback
pub mod Replay
pub mod Contract
mod Tests
