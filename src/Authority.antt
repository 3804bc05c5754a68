-- ===== src/Authority.antt =====
-- The SOP authority component, src/langsop/authority.
pub mod Parser
pub mod Extraction
pub mod Validation
pub mod Discovery
