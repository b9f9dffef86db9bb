-- ===== src/Tpm.antt =====
-- AutoTpmEncrypt/auto_tpm_encrypt.py: its pure parts, one module for each.
mod Tests
pub mod Result
pub mod Fstab
pub mod KernelArgs
pub mod Image
pub mod Files
pub mod Hooks
pub mod Slots
pub mod Power
pub mod PacmanHook
pub mod Seal
pub mod Validate
pub mod Effects
pub mod Encrypt
pub mod Decrypt
pub mod Manifest
