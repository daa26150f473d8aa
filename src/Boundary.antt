-- ===== src/Boundary.antt =====
-- The boundaries of the gateway: tools/identity_boundary.py and
-- tools/authorization_boundary.py.
pub mod Identity
pub mod Authorization
pub mod Decided
mod Tests
