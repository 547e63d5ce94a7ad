-- ===== src/Action.antt =====
-- The action owners of src/action_*: admission and lifecycle in the journal, the expiry gates, the
-- recovery decisions and the custody policy.
pub mod Expiry
pub mod Wall
pub mod Journal
pub mod Dispatch
pub mod Recovery
pub mod Custody
pub mod Publication
