-- ===== src/Instance.antt =====
-- tools/geneos/internal/instance: the ports and the names of instances.
pub mod Ports
pub mod Free
pub mod Documented
pub mod Ends
pub mod Names
pub mod Named
pub mod Matched
mod NameSamples
mod Samples
