-- ===== src/KeyVault/Files/Atomic.antt =====
-- src/key_vault.rs: what `atomic_write_private` leaves, whichever of its calls fails.
use hyperliquid_live_executo.Base.{ℕ, ◌≡◌, ◌⊎◌, false, List, none, some, arith}
use hyperliquid_live_executo.Base.Result.{ok}
use hyperliquid_live_executo.Base.Text.{
  same_bytes, same_bytes_refl, longer_differs, differs_from_longer,
}
use hyperliquid_live_executo.KeyVault.Files.{
  file, FilePath, Files, Faults, temporary_path, process_suffix, atomic_write_private,
}

module _ (faults : Faults) (pid : List ℕ) (path : FilePath) (bytes : List ℕ) (files : Files) where
  abbrev temporary : FilePath
  temporary = temporary_path pid path

  abbrev after : Files
  after = (atomic_write_private faults pid path bytes files).1

  -- All of the file or nothing of it.
  pub record IsAtomic : Type 0 where
    pub kept :
        (after path ≡ files path) ⊎ ((files path ≡ none) × (after path ≡ some (file 384 bytes)))
    pub written :
        (atomic_write_private faults pid path bytes files).0 ≡ ok tt
        → (files path ≡ none) × (after path ≡ some (file 384 bytes)) × (after temporary ≡ none)
    pub elsewhere :
        (q : FilePath)
        → same_bytes q path ≡ false
        → same_bytes q temporary ≡ false
        → after q ≡ files q

  -- Whichever call of the file system fails, at whatever point, the path holds afterwards what it
  -- held before, or it was free and holds the whole content in a file with the mode 0600; in case of
  -- success it was free, it holds the content, and the temporary file is gone; and no other path is
  -- touched.
  pub atomic_write_private-IsAtomic : IsAtomic
  unfolding atomic_write_private
  atomic_write_private-IsAtomic =
      let other : same_bytes (temporary_path pid path) path ≡ false =
        longer_differs path b'.' (process_suffix pid) in
      let other' : same_bytes path (temporary_path pid path) ≡ false =
        differs_from_longer path b'.' (process_suffix pid) in
      let same = same_bytes_refl path in
      let same' = same_bytes_refl (temporary_path pid path) in
      record {
        kept = ground arith;
        written = λ done. ground arith;
        elsewhere = λ q p t. ground arith;
      }
