-- ===== src/KeyVault/Keys/Recovered.antt =====
-- src/key_vault.rs: a key that has been written is unlocked with the same passphrase, and what an
-- unlocked key rests on.
use hyperliquid_live_executo.Base.{
  ℕ, ◌≤◌, ◌%◌, ◌≡◌, refl, true, false, List, String, none, some, codes, length, arith, ltb,
}
use hyperliquid_live_executo.Base.Result.{Result, ok}
use hyperliquid_live_executo.Base.Text.{bytes, same_bytes, same_bytes_refl, differs_from_longer}
use hyperliquid_live_executo.KeyVault.Files.{
  FilePath, Files, Faults, file, temporary_path, process_suffix, atomic_write_private,
  read_private_file,
}
use hyperliquid_live_executo.KeyVault.Files.Atomic.{atomic_write_private-IsAtomic}
use hyperliquid_live_executo.KeyVault.Format.{
  Crypto, CryptoLaws, EncryptedKeyFile, encrypted_file, encrypt_key, decrypt_file, validate_format,
}
use hyperliquid_live_executo.KeyVault.Keys.{write_encrypted_key, unlock_key}

module _ (crypto : Crypto) (laws : CryptoLaws crypto) where
  decrypt_written :
      (passphrase : String) (salt nonce private_key key sealed json : List ℕ)
      → length salt ≡ 16
      → length nonce ≡ 12
      → length private_key ≡ 32
      → crypto.is_secret_key private_key ≡ true
      → crypto.argon2id (bytes passphrase) salt 65536 3 1 ≡ some key
      → crypto.encrypt key nonce private_key ≡ some sealed
      → crypto.to_json (encrypted_file crypto salt nonce sealed) ≡ some json
      → decrypt_file crypto passphrase json ≡ ok private_key
  unfolding decrypt_file validate_format
  decrypt_written passphrase salt nonce private_key key sealed json a b c d e f g =
      let read = laws.from_json-to_json (encrypted_file crypto salt nonce sealed) json g in
      let opened = laws.decrypt-encrypt key nonce private_key sealed f in
      let p = laws.decode-encode salt in
      let q = laws.decode-encode nonce in let r = laws.decode-encode sealed in ground arith

-- No call of the file system fails.
abbrev pub quiet : Faults
quiet = record {
  create_dir = false;
  open_file = false;
  write = none;
  sync = false;
  link = false;
  remove = false;
  cleanup = false;
  read = false;
}

-- What an unlocked key rests on: a file that only its owner reads, in the one format that is allowed.
pub record IsGuarded (crypto : Crypto) (path : FilePath) (key : List ℕ) (files : Files)
    : Type 0 where
  pub mode : ℕ
  pub content : List ℕ
  pub key_file : EncryptedKeyFile
  pub stored : files path ≡ some (file mode content)
  pub owner_only : mode % 64 ≡ 0
  pub read : crypto.from_json content ≡ some key_file
  pub format : validate_format key_file ≡ ok tt
  pub size : length key ≡ 32
  pub secret : crypto.is_secret_key key ≡ true

-- Where no call fails and neither path is taken, the file is written.
atomic_succeeds :
    (pid : List ℕ) (path : FilePath) (content : List ℕ) (files : Files)
    → files path ≡ none
    → files (temporary_path pid path) ≡ none
    → (atomic_write_private quiet pid path content files).0 ≡ ok tt
unfolding atomic_write_private
atomic_succeeds pid path content files free free' =
    let other : same_bytes path (temporary_path pid path) ≡ false =
      differs_from_longer path b'.' (process_suffix pid) in
    let same = same_bytes_refl (temporary_path pid path) in ground arith

module _ (crypto : Crypto) where
  write_steps :
      (passphrase : String) (pid salt nonce private_key key sealed json : List ℕ) (path : FilePath)
      (files : Files)
      → 12 ≤ length (codes passphrase)
      → files path ≡ none
      → crypto.argon2id (bytes passphrase) salt 65536 3 1 ≡ some key
      → crypto.encrypt key nonce private_key ≡ some sealed
      → crypto.to_json (encrypted_file crypto salt nonce sealed) ≡ some json
      → write_encrypted_key crypto quiet pid salt nonce path private_key passphrase files
        ≡ atomic_write_private quiet pid path json files
  unfolding write_encrypted_key encrypt_key
  write_steps passphrase pid salt nonce private_key key sealed json path files long free derived
        encrypted serialized =
      let short : ltb (length (codes passphrase)) 12 ≡ false = ground arith in
      rw (short, free, derived, encrypted, serialized) refl

module _ (crypto : Crypto) (laws : CryptoLaws crypto) where
  -- A valid private key that is written, where no call fails, with a passphrase of at least 12
  -- characters and to a path that is free, is written, and it is unlocked from there with the same
  -- passphrase. The primitives are assumed to derive, encrypt and print the key, and to be read back.
  pub unlock_key-write_encrypted_key :
      (passphrase : String) (pid salt nonce private_key key sealed json : List ℕ) (path : FilePath)
      (files : Files)
      → length salt ≡ 16
      → length nonce ≡ 12
      → length private_key ≡ 32
      → crypto.is_secret_key private_key ≡ true
      → crypto.argon2id (bytes passphrase) salt 65536 3 1 ≡ some key
      → crypto.encrypt key nonce private_key ≡ some sealed
      → crypto.to_json (encrypted_file crypto salt nonce sealed) ≡ some json
      → 12 ≤ length (codes passphrase)
      → files path ≡ none
      → files (temporary_path pid path) ≡ none
      → let out =
          write_encrypted_key crypto quiet pid salt nonce path private_key passphrase files in
        (out.0 ≡ ok tt) × (unlock_key crypto quiet path passphrase out.1 ≡ ok private_key)
  unfolding unlock_key read_private_file
  unlock_key-write_encrypted_key passphrase pid salt nonce private_key key sealed json path files
        salted nonced sized secret derived encrypted serialized long free free' =
      let step =
        write_steps crypto passphrase pid salt nonce private_key key sealed json path files long
          free derived encrypted serialized in
      let done = atomic_succeeds pid path json files free free' in
      let stored = ((atomic_write_private-IsAtomic quiet pid path json files).written done).1 in
      let opened =
        decrypt_written crypto laws passphrase salt nonce private_key key sealed json salted nonced
          sized secret derived encrypted serialized in
      (rw step done, rw (step, stored) opened)
