-- ===== src/Operations.antt =====
-- src/langsop/operations: dry-run operation requests, their refusals, results and safety.
pub mod Requests
pub mod Safety
pub mod DryRun
pub mod Refusals
