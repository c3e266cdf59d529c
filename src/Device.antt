-- ===== src/Device.antt =====
-- Devices and who is online on which: src/common/device.rs and src/server/device/manager.rs.
pub mod Platform
pub mod Strategy
pub mod Registry
mod Tests
