-- ===== src/Examples.antt =====
-- Runs of the model, and the theorems at concrete inputs.
pub mod Samples
mod Beacons
mod Fakes
mod Conversations
mod Tools
mod Homes
mod Probes
mod Overlaps
mod Wire
mod Wires
mod Sessions
mod Pooled
mod Lamps
