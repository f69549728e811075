-- ===== src/Config.antt =====
-- pkg/config: expandable strings, their options and the settings that they are kept in.
pub mod Value
pub mod Options
pub mod Registry
pub mod Contents
pub mod Names
pub mod Substitute
pub mod Expand
pub mod Replace
pub mod Pieces
pub mod Encoded
pub mod Store
pub mod Pairs
pub mod Promoted
pub mod Appended
pub mod Hex
pub mod Secret
pub mod Padded
pub mod KeyFile
pub mod Written
pub mod Fallbacks
pub mod KeyFiles
pub mod Readable
pub mod Credentials
pub mod Folded
pub mod Longest
mod Samples
mod StoreSamples
mod SecretSamples
