-- ===== src/KeyVault/Keys.antt =====
-- src/key_vault.rs: `parse_private_key`, `write_encrypted_key`, `unlock_key` and the two interactive
-- functions. The answers to the prompts and the random bytes are arguments.
pub mod Recovered
use hyperliquid_live_executo.Base.{
  ℕ, ◌+◌, ◌-◌, ◌*◌, not, ◌||◌, List, [], ◌∷◌, String, none, some, ◌==◌, str_eq, ltb, all, codes,
  length, if◌then◌else◌,
}
use hyperliquid_live_executo.Base.Result.{Result, ok, err, panic, fail_if, ◌>>=◌, ◌>>◌}
use hyperliquid_live_executo.Base.Text.{
  encode, is_ascii_digit, is_ascii_uppercase, is_ascii_hexdigit, strip_prefix, trim,
}
use hyperliquid_live_executo.KeyVault.Files.{
  KeyVaultError, already_exists, weak_passphrase, passphrase_mismatch, invalid_private_key,
  serialization, FilePath, Files, Io, Faults, fail_on, ◌>>>◌, exists, atomic_write_private,
  read_private_file,
}
use hyperliquid_live_executo.KeyVault.Format.{Crypto, or_error, encrypt_key, decrypt_file}

-- The value of a hexadecimal digit.
abbrev digit_value : ℕ → ℕ
digit_value c =
    if is_ascii_digit c then c - b'0' else if is_ascii_uppercase c then c - 55 else c - 87

-- `chunks_exact(2)`, each read as a number.
abbrev pub hex_bytes : List ℕ → List ℕ
hex_bytes [] = []
hex_bytes (_ ∷ []) = []
hex_bytes (a ∷ b ∷ cs) = (16 * digit_value a + digit_value b) ∷ hex_bytes cs

abbrev without_prefix : List ℕ → List ℕ
without_prefix text = elim (strip_prefix (b'0' ∷ b'x' ∷ []) text) [ none ↦ text | some rest ↦ rest ]

module _ (crypto : Crypto) where
  unfoldable pub parse_private_key : String → Result KeyVaultError (List ℕ)
  parse_private_key value =
      let digits : List ℕ = encode (without_prefix (trim (codes value))) in
      do
        fail_if (not (length digits == 64) || not (all is_ascii_hexdigit digits))
            invalid_private_key
        fail_if (not (crypto.is_secret_key (hex_bytes digits))) invalid_private_key
        ok (hex_bytes digits)

-- A result that touches no file.
abbrev pub lift : {A B : Type 0} → Result KeyVaultError A → (A → Io B) → Io B
lift (ok a) k files = k a files
lift (err e) k files = (err e, files)
lift panic k files = (panic, files)

module _ (crypto : Crypto) (faults : Faults) where
  -- The creation of the parent directories changes no entry of the model.
  unfoldable pub write_encrypted_key :
      List ℕ → List ℕ → List ℕ → FilePath → List ℕ → String → Io (Unit {0})
  write_encrypted_key pid salt nonce path private_key passphrase files =
      if ltb (length (codes passphrase)) 12
      then (err weak_passphrase, files)
      else if exists path files
      then (err already_exists, files)
      else (fail_on faults.create_dir
            >>> lift (encrypt_key crypto private_key passphrase salt nonce) (λ encrypted.
              lift (or_error serialization (crypto.to_json encrypted))
                (λ serialized. atomic_write_private faults pid path serialized)))
          files

  unfoldable pub unlock_key : FilePath → String → Files → Result KeyVaultError (List ℕ)
  unlock_key path passphrase files = do
    content ← read_private_file faults path files
    decrypt_file crypto passphrase content

  -- The prompts ask for the private key, the passphrase and its confirmation.
  unfoldable pub encrypt_key_interactive :
      List ℕ
      → List ℕ
      → List ℕ
      → FilePath
      → Result KeyVaultError String
      → Result KeyVaultError String
      → Result KeyVaultError String
      → Io (Unit {0})
  encrypt_key_interactive pid salt nonce path key_prompt prompt confirmation_prompt files =
      if exists path files
      then (err already_exists, files)
      else lift {A = List ℕ × String}
          (do
            private_key ← key_prompt
            passphrase ← prompt
            confirmation ← confirmation_prompt
            fail_if (not (str_eq passphrase confirmation)) passphrase_mismatch
            key ← parse_private_key crypto private_key
            ok (key, passphrase))
          (λ p. write_encrypted_key pid salt nonce path p.0 p.1) files

  unfoldable pub unlock_key_interactive :
      FilePath → Result KeyVaultError String → Files → Result KeyVaultError (List ℕ)
  unlock_key_interactive path prompt files = do
    passphrase ← prompt
    unlock_key path passphrase files
