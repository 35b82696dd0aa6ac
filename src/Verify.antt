-- ===== src/Verify.antt =====
-- COSE_Sign1 verification: inc/t_cose/t_cose_sign1_verify.h and src/t_cose_sign1_verify.c.
pub mod Context
pub mod Tags
pub mod Signature
pub mod Message
pub mod Reuse
