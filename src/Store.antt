-- ===== src/Store.antt =====
-- src/durable_event_store.rs: events, their batches, and the writer that moves them to the database.
pub mod Config
pub mod Events
pub mod Database
pub mod Mpsc
pub mod Backend
pub mod Flush
pub mod Retry
pub mod Writer
pub mod SaveEvent
pub mod Pipeline
pub mod Streams
pub mod Connect
