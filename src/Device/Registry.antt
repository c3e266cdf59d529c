-- ===== src/Device/Registry.antt =====
-- src/server/device/manager.rs: `DeviceOwner`, `DeviceRegistry`, `DeviceManager`. The registry stands
-- behind one lock, so a method is a function of the registry; logging is left out.
pub mod Defs
pub mod Buckets
pub mod Consistency
pub mod Conflicts
