-- ===== src/Release.antt =====
-- tools/geneos/internal/geneos/versions.go: the installed releases of a component, the symbolic link
-- that selects one, and the archives that a release can be installed from.
pub mod Current
pub mod Links
pub mod Order
pub mod Compare
pub mod Archives
pub mod Listed
pub mod Update
pub mod Newest
pub mod Updated
pub mod Relinked
mod UpdateSamples
mod Samples
