-- ===== src/Accept.antt =====
-- The owner of accepted configuration, src/accept.
pub mod Effective
pub mod Store
pub mod Tickets
pub mod Acceptance
pub mod Activation
pub mod Activate
pub mod Recovery
pub mod Histories
pub mod Chains
