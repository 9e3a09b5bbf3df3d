-- ===== src/Domain.antt =====
-- core/src/domain: the types of the program's core that have behaviour of their own.
pub mod Undo
pub mod Security
pub mod Transfer
mod Tests
