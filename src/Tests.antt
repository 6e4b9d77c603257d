-- ===== src/Tests.antt =====
-- Runs of the code on small inputs, and the theorems at inputs that meet their hypotheses.
mod BlockTests
mod PciTests
mod PciedrvTests
mod DeviceTests
mod SystemTests
mod ArrayTests
mod WriteTests
mod ProbeTests
mod ProtocolTests
mod TrialTests
mod ModuleTests
