-- ===== src/Surfaces.antt =====
-- src/langsop/surfaces: what is displayed of records, and its limits.
pub mod Display
pub mod State
