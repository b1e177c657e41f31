-- ===== src/Main.antt =====
-- cmd/main.go: the flags of the driver's command, from the environment and the command line.
pub mod CommandLine
pub mod Flags
pub mod Start
mod Tests
