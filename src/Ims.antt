-- ===== src/Ims.antt =====
-- pkg/ims: the transformation of incident fields and the action groups that set them.
pub mod Transform
pub mod Filtered
pub mod Action
pub mod Frame
pub mod Prefixes
pub mod Chosen
mod Samples
