-- ===== src/Command.antt =====
-- src/main.rs: the command line.
pub mod Values
pub mod Arguments
