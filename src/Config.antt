-- ===== src/Config.antt =====
-- The runtime configuration: its documents, the activation gate and the compiler of routes.
pub mod Documents
pub mod Activation
pub mod Compile
pub mod Routes
pub mod Disjoint
pub mod Gate
mod Tests
