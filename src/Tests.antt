-- ===== src/Tests.antt =====
-- Runs of the model at concrete inputs.
pub mod Data
pub mod Segments
pub mod Objects
pub mod Values
pub mod Buckets
pub mod Uploads
pub mod Reached
