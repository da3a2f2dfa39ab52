-- ===== src/KeyVault/Files.antt =====
-- src/key_vault.rs: `atomic_write_private` and `read_private_file`, on a file system of which every
-- call may fail. A path is its bytes; the umask leaves the owner's bits.
pub mod Atomic
use hyperliquid_live_executo.Base.{
  ℕ, ◌%◌, Bool, true, false, not, List, [], ◌++◌, ◌∷◌, Option, none, some, ◌==◌, take,
  if◌then◌else◌,
}
use hyperliquid_live_executo.Base.Result.{Result, ok, err, panic}
use hyperliquid_live_executo.Base.Text.{same_bytes}

-- Why a call of the file system fails.
pub data IoError : Type 0 where
  fault not_found already_there a_link a_directory : IoError

pub data KeyVaultError : Type 0 where
  already_exists insecure_permissions weak_passphrase passphrase_mismatch : KeyVaultError
  invalid_private_key invalid_key_file decryption_failed serialization : KeyVaultError
  terminal : IoError → KeyVaultError

-- A file with its mode and its bytes, a directory with its mode, or a symbolic link, by whether what
-- it leads to exists.
pub data Entry : Type 0 where
  file : ℕ → List ℕ → Entry
  directory : ℕ → Entry
  symlink : Bool → Entry

abbrev pub FilePath : Type 0
FilePath = List ℕ

abbrev pub Files : Type 0
Files = FilePath → Option Entry

abbrev pub Io : Type 0 → Type 0
Io A = Files → Result KeyVaultError A × Files

-- The calls that fail whatever the files are; a write that fails has written some bytes.
pub record Faults : Type 0 where
  pub create_dir : Bool
  pub open_file : Bool
  pub write : Option ℕ
  pub sync : Bool
  pub link : Bool
  pub remove : Bool
  pub cleanup : Bool
  pub read : Bool

abbrev pub followed :
    {A : Type 0} → Io A → Result KeyVaultError (Unit {0}) × Files → Result KeyVaultError A × Files
followed second (ok _, files) = second files
followed second (err e, files) = (err e, files)
followed second (panic, files) = (panic, files)

infixl 5 ◌>>>◌
-- A call after another one that has succeeded.
abbrev pub ◌>>>◌ : {A : Type 0} → Io (Unit {0}) → Io A → Io A
◌>>>◌ first second files = followed second (first files)

abbrev pub put : FilePath → Option Entry → Files → Files
put path entry files q = if same_bytes q path then entry else files q

abbrev pub fail_on : Bool → Io (Unit {0})
fail_on true files = (err (terminal fault), files)
fail_on false files = (ok tt, files)

-- `path.exists()`, which follows a link
abbrev entry_exists : Option Entry → Bool
entry_exists none = false
entry_exists (some (file _ _)) = true
entry_exists (some (directory _)) = true
entry_exists (some (symlink leads)) = leads

abbrev pub exists : FilePath → Files → Bool
exists path files = entry_exists (files path)

-- `create_new(true)` with the mode 0o600
abbrev create_entry : FilePath → Option Entry → Io (Unit {0})
create_entry path none files = (ok tt, put path (some (file 384 [])) files)
create_entry path (some _) files = (err (terminal already_there), files)

abbrev create_new : FilePath → Io (Unit {0})
create_new path files = create_entry path (files path) files

abbrev write_all : Option ℕ → FilePath → List ℕ → Io (Unit {0})
write_all none path bytes files = (ok tt, put path (some (file 384 bytes)) files)
write_all (some n) path bytes files =
    (err (terminal fault), put path (some (file 384 (take n bytes))) files)

abbrev link_entry : FilePath → Option Entry → Option Entry → Io (Unit {0})
link_entry path entry none files = (ok tt, put path entry files)
link_entry path entry (some _) files = (err already_exists, files)

abbrev hard_link : FilePath → FilePath → Io (Unit {0})
hard_link original path files = link_entry path (files original) (files path) files

abbrev remove_entry : FilePath → Option Entry → Io (Unit {0})
remove_entry path none files = (err (terminal not_found), files)
remove_entry path (some (directory _)) files = (err (terminal a_directory), files)
remove_entry path (some (file _ _)) files = (ok tt, put path none files)
remove_entry path (some (symlink _)) files = (ok tt, put path none files)

abbrev remove_file : FilePath → Io (Unit {0})
remove_file path files = remove_entry path (files path) files

abbrev pub process_suffix : List ℕ → List ℕ
process_suffix pid = pid ++ b'.' ∷ b't' ∷ b'm' ∷ b'p' ∷ []

-- The file beside the path, of which the name ends in the id of the process.
abbrev pub temporary_path : List ℕ → FilePath → FilePath
temporary_path pid path = path ++ b'.' ∷ process_suffix pid

module _ (faults : Faults) where
  -- The closure of `atomic_write_private`.
  abbrev write_and_link : FilePath → FilePath → List ℕ → Io (Unit {0})
  write_and_link temporary path bytes =
      fail_on faults.open_file
      >>> create_new temporary
      >>> write_all faults.write temporary bytes
      >>> fail_on faults.sync
      >>> fail_on faults.link
      >>> hard_link temporary path
      >>> fail_on faults.remove
      >>> remove_file temporary

  -- What is left where the closure has failed.
  abbrev cleaned :
      FilePath → Result KeyVaultError (Unit {0}) × Files → Result KeyVaultError (Unit {0}) × Files
  cleaned temporary (ok _, files) = (ok tt, files)
  cleaned temporary (err e, files) =
      (err e, ((fail_on faults.cleanup >>> remove_file temporary) files).1)
  cleaned temporary (panic, files) = (panic, files)

  unfoldable pub atomic_write_private : List ℕ → FilePath → List ℕ → Io (Unit {0})
  atomic_write_private pid path bytes files =
      cleaned (temporary_path pid path) (write_and_link (temporary_path pid path) path bytes files)

  abbrev is_private : ℕ → Bool
  is_private mode = mode % 64 == 0

  abbrev read_entry : Option Entry → Result KeyVaultError (List ℕ)
  read_entry none = err (terminal not_found)
  read_entry (some (symlink _)) = err (terminal a_link)
  read_entry (some (directory mode)) =
      if is_private mode then err (terminal a_directory) else err insecure_permissions
  read_entry (some (file mode bytes)) =
      if not (is_private mode)
      then err insecure_permissions
      else if faults.read
      then err (terminal fault)
      else ok bytes

  -- `read_private_file`, which does not follow a link.
  unfoldable pub read_private_file : FilePath → Files → Result KeyVaultError (List ℕ)
  read_private_file path files = read_entry (files path)
