-- ===== src/Storage.antt =====
-- The durable store of src/storage: its tickets and their receipts.
pub mod Mutation
pub mod Encoding
pub mod Outbox
