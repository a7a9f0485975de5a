-- ===== src/V1/Totp.antt =====
-- legacy/v1/src/auth/crypto/totp-generator.ts: SecureTOTPGenerator. Base32 has the encoder of secrets,
-- Codes the entropy, the backup codes and the checks of a secret.
pub mod Base32
pub mod Codes
mod Tests
