-- ===== src/Tests.antt =====
-- Concrete runs: one for each result, at an input that exercises the code it is about.
pub mod Access
pub mod Journal
pub mod Walls
pub mod Store
pub mod Clocks
pub mod Policies
pub mod Devices
pub mod Receiver
pub mod Outbox
pub mod Json
pub mod Accept
