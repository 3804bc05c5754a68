-- ===== src/Tests.antt =====
-- Runs of the definitions at fixed inputs, and the examples of the theorems.
mod Samples
mod Texts
mod OperatorRuns
mod GraphRuns
mod Checks
mod Parsing
mod Authority
mod Coordination
mod Operations
mod Manager
