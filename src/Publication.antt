-- ===== src/Publication.antt =====
-- tools/publication.py: the publication store, the publisher and its batches of changes.
pub mod Manifest
pub mod Store
pub mod Publish
pub mod LastKnownGood
mod Tests
