-- ===== src/External.antt =====
-- Third-party code that several parts call, as parameters with its documented behaviour.
pub mod Json
pub mod JetStream
