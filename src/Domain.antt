-- ===== src/Domain.antt =====
-- The shared vocabulary of src/domain: errors, identities and times.
pub mod Errors
pub mod Ids
pub mod Clock
pub mod Json
