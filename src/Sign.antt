-- ===== src/Sign.antt =====
-- COSE_Sign1 signing: inc/t_cose/t_cose_sign1_sign.h and src/t_cose_sign1_sign.c.
pub mod Context
pub mod Parameters
pub mod Signature
pub mod Message
