-- ===== src/Operators.antt =====
-- The contract-driven operator harness (src/langsop/operators).
pub mod Values
pub mod Contracts
pub mod Requests
pub mod Traces
pub mod Results
pub mod Classify
pub mod Runner
