-- ===== src/Runtime.antt =====
-- The runtime slice of the program: src/runtime/admission.rs and the drivers under src/runtime.
pub mod Admission
pub mod Quarantine
pub mod Modbus
pub mod Mapping
pub mod Subscription
