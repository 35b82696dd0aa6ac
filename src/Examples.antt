-- ===== src/Examples.antt =====
-- The results at concrete inputs.
pub mod Models
pub mod Parameters
pub mod Signatures
pub mod Messages
pub mod Signed
pub mod Roundtrip
pub mod Contexts
pub mod Programs
pub mod Dynamic
pub mod Hashes
pub mod Psa
pub mod OpenSsl
pub mod Evp
