-- ===== src/Runtime.antt =====
-- The in-process graph runtime (src/langsop/runtime).
pub mod State
pub mod Contracts
pub mod Checkpoints
pub mod Interrupts
pub mod Runner
pub mod Path
