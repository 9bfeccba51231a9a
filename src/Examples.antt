-- ===== src/Examples.antt =====
-- The theorems at concrete inputs.
pub mod Trees
pub mod Tables
pub mod Encodings
pub mod Batches
pub mod Versions
pub mod Logs
