-- ===== src/Tests.antt =====
-- Concrete instances of the parameters, and the theorems at concrete inputs.
pub mod Doubles
pub mod Tables
pub mod Writing
pub mod Ingesting
pub mod Tracing
pub mod Saving
pub mod Piping
pub mod Overlapping
pub mod Replaying
pub mod Locking
pub mod Licensing
pub mod Serving
pub mod Benching
pub mod Loading
pub mod Starting
pub mod Restarting
pub mod Capturing
