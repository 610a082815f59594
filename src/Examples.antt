-- ===== src/Examples.antt =====
-- Runs of the theorems at concrete inputs, and tests of the definitions.
mod Buffers
mod Details
mod Slots
mod Modules
mod Logs
mod Names
mod Identities
mod Requests
mod Detected
mod Managed
mod Connected
mod Mapped
