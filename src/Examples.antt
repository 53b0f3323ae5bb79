-- ===== src/Examples.antt =====
-- Runs of the model on concrete inputs.
mod Toy
mod Batches
mod Checks
mod Commands
mod Controller
mod Keys
mod Launch
mod Lifecycle
mod Network
mod Operations
mod Pages
mod Recorded
mod Service
mod Settings
mod Signing
mod Ticks
mod Waiting
