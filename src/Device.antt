-- ===== src/Device.antt =====
-- device.py: `DLightDevice`, a lamp with a cached state that is updated before the lamp answers.
pub mod Typed
pub mod State
pub mod Listeners
pub mod Operations
pub mod Scenes
pub mod Flash
pub mod Surprises
pub mod Rollback
pub mod Coherence
pub mod Overlap
pub mod Notices
