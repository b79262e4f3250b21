-- ===== src/Tests.antt =====
-- Concrete devices, runs of the modelled code on them, and uses of its theorems at such inputs.
pub mod Devices
pub mod Frames
pub mod Transport
pub mod Sessions
pub mod Timing
pub mod Building
pub mod Texts
pub mod Recorded
pub mod Peers
pub mod Flaky
pub mod Conversations
pub mod Histories
pub mod Tunnelling
pub mod Punctual
