-- ===== src/KeyVault.antt =====
-- src/key_vault.rs: the encrypted key of the API wallet. Files is the file system, Format the
-- encrypted key file, Keys its writing and its unlocking.
pub mod Files
pub mod Format
pub mod Keys
