-- ===== src/Certs.antt =====
-- pkg/certs: which certificates are valid for what, private keys, PEM data, bundles of a leaf and its
-- chain, and the file of root certificates.
pub mod Certificates
pub mod Bundles
pub mod Roots
pub mod Written
pub mod Missing
pub mod Renewed
mod SamplePem
mod Samples
