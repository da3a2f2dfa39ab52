-- ===== src/KeyVault/Format.antt =====
-- src/key_vault.rs: the encrypted key file, `encrypt_key`, `validate_format` and the derivation of the
-- key. Argon2, AES-GCM, Base64, JSON and the test of a secp256k1 key are parameters.
use hyperliquid_live_executo.Base.{
  ℕ, Bool, not, ◌&&◌, List, String, Option, none, some, ◌==◌, ◌≡◌, str_eq, length,
}
use hyperliquid_live_executo.Base.Result.{Result, ok, err, fail_if, ◌>>=◌, ◌>>◌}
use hyperliquid_live_executo.Base.Text.{bytes}
use hyperliquid_live_executo.KeyVault.Files.{
  KeyVaultError, invalid_key_file, invalid_private_key, decryption_failed, serialization,
}

pub record KdfConfig : Type 0 where
  pub algorithm : String
  pub memory_kib : ℕ
  pub iterations : ℕ
  pub parallelism : ℕ

pub record EncryptedKeyFile : Type 0 where
  pub schema_version : ℕ
  pub cipher : String
  pub kdf : KdfConfig
  pub salt : String
  pub nonce : String
  pub ciphertext : String

-- What the vault takes from other crates.
pub record Crypto : Type 0 where
  -- the passphrase, the salt, the memory, the iterations and the parallelism, for a key of 32 bytes
  pub argon2id : List ℕ → List ℕ → ℕ → ℕ → ℕ → Option (List ℕ)
  -- the key, the nonce and the message, under the associated data of the vault
  pub encrypt : List ℕ → List ℕ → List ℕ → Option (List ℕ)
  pub decrypt : List ℕ → List ℕ → List ℕ → Option (List ℕ)
  pub base64_encode : List ℕ → String
  pub base64_decode : String → Option (List ℕ)
  pub to_json : EncryptedKeyFile → Option (List ℕ)
  pub from_json : List ℕ → Option EncryptedKeyFile
  pub is_secret_key : List ℕ → Bool

-- What is documented of them: each encoding is read back.
pub record CryptoLaws (crypto : Crypto) : Type 0 where
  pub decrypt-encrypt :
      (key nonce message sealed : List ℕ)
      → crypto.encrypt key nonce message ≡ some sealed
      → crypto.decrypt key nonce sealed ≡ some message
  pub decode-encode :
      (content : List ℕ) → crypto.base64_decode (crypto.base64_encode content) ≡ some content
  pub from_json-to_json :
      (key_file : EncryptedKeyFile) (content : List ℕ)
      → crypto.to_json key_file ≡ some content
      → crypto.from_json content ≡ some key_file

-- `.map_err(|_| e)?`
abbrev pub or_error : {A : Type 0} → KeyVaultError → Option A → Result KeyVaultError A
or_error e none = err e
or_error e (some a) = ok a

-- The three constants of Argon2.
abbrev pub argon2_kdf : KdfConfig
argon2_kdf = record { algorithm = "argon2id"; memory_kib = 65536; iterations = 3; parallelism = 1 }

unfoldable pub validate_format : EncryptedKeyFile → Result KeyVaultError (Unit {0})
validate_format encrypted =
    fail_if
      (not (
        encrypted.schema_version == 1
        && str_eq encrypted.cipher "aes-256-gcm"
        && str_eq encrypted.kdf.algorithm "argon2id"
        && encrypted.kdf.memory_kib == 65536
        && encrypted.kdf.iterations == 3
        && encrypted.kdf.parallelism == 1))
      invalid_key_file

module _ (crypto : Crypto) where
  abbrev pub derive_key : String → List ℕ → KdfConfig → Result KeyVaultError (List ℕ)
  derive_key passphrase salt kdf =
      or_error invalid_key_file
        (crypto.argon2id (bytes passphrase) salt kdf.memory_kib kdf.iterations kdf.parallelism)

  abbrev pub encrypted_file : List ℕ → List ℕ → List ℕ → EncryptedKeyFile
  encrypted_file salt nonce ciphertext = record {
    schema_version = 1;
    cipher = "aes-256-gcm";
    kdf = argon2_kdf;
    salt = crypto.base64_encode salt;
    nonce = crypto.base64_encode nonce;
    ciphertext = crypto.base64_encode ciphertext;
  }

  unfoldable pub encrypt_key :
      List ℕ → String → List ℕ → List ℕ → Result KeyVaultError EncryptedKeyFile
  encrypt_key private_key passphrase salt nonce = do
    key ← derive_key passphrase salt argon2_kdf
    ciphertext ← or_error invalid_key_file (crypto.encrypt key nonce private_key)
    ok (encrypted_file salt nonce ciphertext)

  -- An array of so many bytes.
  abbrev pub decode_array : ℕ → String → Result KeyVaultError (List ℕ)
  decode_array n value = do
    decoded ← or_error invalid_key_file (crypto.base64_decode value)
    fail_if (not (length decoded == n)) invalid_key_file
    ok decoded

  -- `unlock_key`, from the bytes of the file.
  unfoldable pub decrypt_file : String → List ℕ → Result KeyVaultError (List ℕ)
  unfolding validate_format
  decrypt_file passphrase content = do
    encrypted ← or_error serialization (crypto.from_json content)
    validate_format encrypted
    salt ← decode_array 16 encrypted.salt
    nonce ← decode_array 12 encrypted.nonce
    ciphertext ← or_error invalid_key_file (crypto.base64_decode encrypted.ciphertext)
    key ← derive_key passphrase salt encrypted.kdf
    plaintext ← or_error decryption_failed (crypto.decrypt key nonce ciphertext)
    fail_if (not (length plaintext == 32 && crypto.is_secret_key plaintext)) invalid_private_key
    ok plaintext
