-- ===== src/Shell.antt =====
-- The shell, components/shell/src/nd_shell.c.
pub mod State
pub mod Line
pub mod History
pub mod Command
pub mod Task
pub mod Invariant
