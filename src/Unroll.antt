-- ===== src/Unroll.antt =====
-- pkg/geneos: the groups of a gateway's configuration, unrolled into maps by name.
pub mod Groups
pub mod Latest
pub mod Rules
pub mod Flat
pub mod Probes
pub mod Inherited
pub mod Probed
pub mod Entities
pub mod Resolved
mod Samples
