-- ===== src/Device.antt =====
-- The simulated parity device.
pub mod Start
pub mod Irq
pub mod Word
pub mod Xor
pub mod XorLoop
pub mod Request
pub mod Dispatcher
