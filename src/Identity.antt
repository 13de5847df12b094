-- ===== src/Identity.antt =====
-- Signers, and the keys behind them: node/src/identity.
pub mod Pkcs11
pub mod Hsm
pub mod Signers
