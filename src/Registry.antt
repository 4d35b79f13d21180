-- ===== src/Registry.antt =====
-- programs/registry/src: epochs, and which forester works when.
pub mod Config
pub mod Phases
pub mod Epoch
pub mod Ranges
pub mod Slots
pub mod Work
pub mod Tests
