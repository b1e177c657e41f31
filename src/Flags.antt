-- ===== src/Flags.antt =====
-- pkg/flags/flags.go: the options of a volume, from every place where they can be given.
pub mod Names
pub mod Switches
pub mod Merge
pub mod FlagSet
pub mod MountOptions
pub mod Gcsfuse
mod Tests
