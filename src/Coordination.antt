-- ===== src/Coordination.antt =====
-- src/langsop/coordination: claims on work, their reviews and their mailbox.
pub mod Claims
pub mod Reviews
pub mod Mailbox
