-- ===== src/Emulator.antt =====
-- covenant/covenant.go: the emulator and its submission loop.
pub mod Batches
pub mod Defs
pub mod Signing
pub mod Submit
pub mod Timelock
pub mod Sanitize
pub mod Retry
pub mod Loop
pub mod Lifecycle
pub mod Construction
