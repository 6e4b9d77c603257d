-- ===== src/Pci.antt =====
-- The configuration space of the parity device.
pub mod Space
pub mod Field
pub mod Layout
pub mod Settings
pub mod Found
pub mod Access
