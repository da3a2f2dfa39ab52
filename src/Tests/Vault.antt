-- ===== src/Tests/Vault.antt =====
-- A key that is written and unlocked, with primitives that hide nothing.
use hyperliquid_live_executo.Base.{
  ℕ, zero, suc, ◌+◌, ◌≡◌, refl, ◌&&◌, List, [], ◌∷◌, String, Option, none, some, ◌==◌, str_eq,
  codes, length, eq_iff, arith, ap, if◌then◌else◌,
}
use hyperliquid_live_executo.Base.Result.{ok}
use hyperliquid_live_executo.Base.Text.{bytes}
use hyperliquid_live_executo.KeyVault.Files.{
  FilePath, Files, Faults, atomic_write_private, read_private_file,
}
use hyperliquid_live_executo.KeyVault.Files.Atomic.{IsAtomic, atomic_write_private-IsAtomic}
use hyperliquid_live_executo.KeyVault.Format.{
  Crypto, CryptoLaws, EncryptedKeyFile, argon2_kdf, decrypt_file, encrypt_key, validate_format,
}
use hyperliquid_live_executo.KeyVault.Keys.{
  write_encrypted_key, unlock_key, parse_private_key, encrypt_key_interactive,
  unlock_key_interactive,
}
use hyperliquid_live_executo.KeyVault.Keys.Recovered.{quiet, unlock_key-write_encrypted_key}
use Prim.Native.Char.{char, code}

-- A number as so many letters and a point.
abbrev letters : ℕ → String → String
letters zero s = String.◌∷◌ (char 46 tt) s
letters (suc n) s = String.◌∷◌ (char 97 tt) (letters n s)

abbrev spell : List ℕ → String
spell [] = String.[]
spell (n ∷ ns) = letters n (spell ns)

abbrev read_from : ℕ → String → List ℕ
read_from n String.[] = []
read_from n (String.◌∷◌ c s) =
    let rest = read_from 0 s in
    let more = read_from (suc n) s in if code c == b'.' then n ∷ rest else more

read_letters : (k n : ℕ) (s : String) → read_from k (letters n s) ≡ (k + n) ∷ read_from 0 s
read_letters k zero s = ground arith
read_letters k (suc n) s = ground (arith, read_letters (suc k) n s)

read_spell : (ns : List ℕ) → read_from 0 (spell ns) ≡ ns
read_spell [] = refl
read_spell (n ∷ ns) = ground (arith, read_letters 0 n (spell ns), read_spell ns)

abbrev private_key : List ℕ
private_key =
    1 ∷ 2 ∷ 3 ∷ 4 ∷ 5 ∷ 6 ∷ 7 ∷ 8 ∷ 9 ∷ 1 ∷ 2 ∷ 3 ∷ 4 ∷ 5 ∷ 6 ∷ 7 ∷ 8 ∷ 9 ∷ 1 ∷ 2 ∷ 3 ∷ 4 ∷ 5 ∷ 6
    ∷ 7 ∷ 8 ∷ 9 ∷ 1 ∷ 2 ∷ 3 ∷ 4 ∷ 5 ∷ []

abbrev salt : List ℕ
salt = 1 ∷ 2 ∷ 3 ∷ 4 ∷ 5 ∷ 6 ∷ 7 ∷ 8 ∷ 9 ∷ 1 ∷ 2 ∷ 3 ∷ 4 ∷ 5 ∷ 6 ∷ 7 ∷ []

abbrev nonce : List ℕ
nonce = 1 ∷ 2 ∷ 3 ∷ 4 ∷ 5 ∷ 6 ∷ 7 ∷ 8 ∷ 9 ∷ 1 ∷ 2 ∷ 3 ∷ []

-- The one file of the test.
abbrev key_file : EncryptedKeyFile
key_file = record {
  schema_version = 1;
  cipher = "aes-256-gcm";
  kdf = argon2_kdf;
  salt = spell salt;
  nonce = spell nonce;
  ciphertext = spell private_key;
}

abbrev printed : EncryptedKeyFile → Option (List ℕ)
printed f =
    if f.schema_version == 1
      && str_eq f.cipher "aes-256-gcm"
      && str_eq f.kdf.algorithm "argon2id"
      && f.kdf.memory_kib == 65536
      && f.kdf.iterations == 3
      && f.kdf.parallelism == 1
      && str_eq f.salt (spell salt)
      && str_eq f.nonce (spell nonce)
      && str_eq f.ciphertext (spell private_key)
    then some (123 ∷ 125 ∷ [])
    else none

abbrev crypto : Crypto
crypto = record {
  argon2id = λ passphrase _ _ _ _. some passphrase;
  encrypt = λ _ _ message. some message;
  decrypt = λ _ _ sealed. some sealed;
  base64_encode = spell;
  base64_decode = λ text. some (read_from 0 text);
  to_json = printed;
  from_json = λ _. some key_file;
  is_secret_key = λ key. length key == 32;
}

crypto-CryptoLaws : CryptoLaws crypto
crypto-CryptoLaws = record {
  decrypt-encrypt = λ key nonce message sealed h. cc;
  decode-encode = λ content. ap (λ r. some r) (read_spell content);
  from_json-to_json = λ f content h.
      let a = (eq_iff f.cipher "aes-256-gcm").0 in
      let b = (eq_iff f.kdf.algorithm "argon2id").0 in
      let c = (eq_iff f.salt (spell salt)).0 in
      let d = (eq_iff f.nonce (spell nonce)).0 in
      let e = (eq_iff f.ciphertext (spell private_key)).0 in ground arith;
}

abbrev path : FilePath
path = codes "wallet.key"

abbrev pid : List ℕ
pid = codes "42"

abbrev no_files : Files
no_files _ = none

abbrev passphrase : String
passphrase = "correct horse"

unlock_key-write_encrypted_key_example :
    let out =
      write_encrypted_key crypto quiet pid salt nonce path private_key passphrase no_files in
    (out.0 ≡ ok tt) × (unlock_key crypto quiet path passphrase out.1 ≡ ok private_key)
unfolding bytes
unlock_key-write_encrypted_key_example =
    unlock_key-write_encrypted_key crypto crypto-CryptoLaws passphrase pid salt nonce private_key
      (bytes passphrase) private_key (123 ∷ 125 ∷ []) path no_files refl refl refl refl refl refl
      refl (omega arith) refl refl

abbrev written : Files
written = (write_encrypted_key crypto quiet pid salt nonce path private_key passphrase no_files).1

-- The write stops after one byte.
abbrev full_disk : Faults
full_disk = record quiet { write = some 1 }

atomic_write_private-IsAtomic_example : IsAtomic full_disk pid path (123 ∷ 125 ∷ []) no_files
atomic_write_private-IsAtomic_example =
    atomic_write_private-IsAtomic full_disk pid path (123 ∷ 125 ∷ []) no_files

-- Nothing is left of it.
nothing_left : (atomic_write_private full_disk pid path (123 ∷ 125 ∷ []) no_files).1 path ≡ none
unfolding atomic_write_private
nothing_left = refl

-- A key of which every digit is given, with its prefix and white space around it.
abbrev key_text : String
key_text = " 0x0102030405060708090102030405060708090102030405060708090102030405\n"

parsed : parse_private_key crypto key_text ≡ ok private_key
unfolding parse_private_key
parsed = refl

interactive :
    unlock_key_interactive crypto quiet path
      (ok passphrase)
      (encrypt_key_interactive crypto quiet pid salt nonce path
        (ok key_text)
        (ok passphrase)
        (ok passphrase)
        no_files).1
    ≡ ok private_key
unfolding encrypt_key_interactive unlock_key_interactive parse_private_key write_encrypted_key
    encrypt_key atomic_write_private unlock_key read_private_file decrypt_file validate_format bytes
interactive = refl
