-- ===== src/Bookmarks.antt =====
-- Read positions in the publication of incidents: tools/operational_bookmarks.py.
pub mod Table
pub mod Pigeonhole
pub mod Places
pub mod Positions
pub mod Flow
pub mod Start
pub mod Coherent
pub mod Paged
pub mod Read
pub mod Complete
pub mod Reachable
pub mod Coverage
mod Tests
