-- ===== src/Manager.antt =====
-- src/langsop/manager: the readiness of a work cycle, and its packet.
pub mod Vocabulary
pub mod Fields
pub mod Records
pub mod Obligations
pub mod Parts
pub mod Stops
pub mod Readiness
pub mod Packets
pub mod Faults
pub mod Authority
