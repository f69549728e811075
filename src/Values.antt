-- ===== src/Values.antt =====
-- tools/geneos/internal/values: the flags that give settings of an instance, and the update of its
-- configuration from them.
pub mod Variables
pub mod Named
pub mod Kept
pub mod Normal
pub mod Conf
pub mod Slices
pub mod Merged
pub mod Tables
pub mod Settings
pub mod Framed
pub mod Applied
pub mod Flags
pub mod InMap
pub mod Expanding
mod Samples
