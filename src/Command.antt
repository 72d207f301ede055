-- ===== src/Command.antt =====
-- cmd/aurforge/main.go: the command line.
pub mod Flags
pub mod Output
pub mod Add
pub mod Remove
