-- ===== src/Links.antt =====
-- crates/modeld-core/src/links.rs on Unix: how a duplicate is replaced by a link to its object. The
-- device of a path is the operating system's, a parameter.
use model_id.Base.{ℕ, Bool, true, false, ◌&&◌, if◌then◌else◌, nat_eq, ◌==◌}
use model_id.Base.Text.{Text, codes}
use model_id.Base.Results.{Result, ok, err}
use model_id.Db.Enums
use model_id.Db.Enums.{AliasType}
use model_id.Sys.{FilePath, M, pure, try, ◌>>=◌}
use model_id.Sys.Files.{metadata_len, remove_file}
use model_id.Sys.Links.{hard_link, symlink}

pub data LinkResult : Type 0 where
  success : AliasType → LinkResult
  failed : LinkResult

pub record LinkCapability : Type 0 where
  pub has_symlink_privilege : Bool
  pub primary_filesystem : Text

-- On Linux.
abbrev pub detect : LinkCapability
detect = record { has_symlink_privilege = true; primary_filesystem = codes "ext4" }

abbrev pub remove_file_force : FilePath → M (Unit {0})
remove_file_force path = remove_file path

abbrev pub linked : AliasType → Result (Unit {0}) → LinkResult
linked kind (ok u) = success kind
linked kind (err e) = failed

abbrev pub hardlink_after : FilePath → FilePath → Result (Unit {0}) → M LinkResult
hardlink_after source target (err e) = pure failed
hardlink_after source target (ok u) = do
  made ← try (hard_link target source)
  pure (linked Enums.hardlink made)

unfoldable pub create_hardlink : FilePath → FilePath → M LinkResult
create_hardlink source target = do
  removed ← try (remove_file_force source)
  hardlink_after source target removed

abbrev pub symlink_after : FilePath → FilePath → Result (Unit {0}) → M LinkResult
symlink_after source target (err e) = pure failed
symlink_after source target (ok u) = do
  made ← try (symlink target source)
  pure (linked Enums.symlink made)

unfoldable pub create_symlink : FilePath → FilePath → M LinkResult
create_symlink source target = do
  removed ← try (remove_file_force source)
  symlink_after source target removed

abbrev pub create_reference_only : FilePath → FilePath → LinkResult
create_reference_only source target = success Enums.reference_only

abbrev pub both_ok : Result ℕ → Result ℕ → Bool
both_ok (ok a) (ok b) = true
both_ok (ok a) (err e) = false
both_ok (err e) b = false

module _ (device : FilePath → ℕ) where
  abbrev pub is_same_volume : FilePath → FilePath → M Bool
  is_same_volume path1 path2 = do
    m1 ← try (metadata_len path1)
    m2 ← try (metadata_len path2)
    pure (both_ok m1 m2 && device path1 == device path2)

  abbrev pub create_across : FilePath → FilePath → LinkCapability → Bool → M LinkResult
  create_across source target capability true = create_hardlink source target
  create_across source target capability false =
      if capability.has_symlink_privilege
      then create_symlink source target
      else pure (create_reference_only source target)

  unfoldable pub create_link : FilePath → FilePath → LinkCapability → M LinkResult
  unfolding create_hardlink create_symlink
  create_link source target capability = do
    same ← is_same_volume source target
    create_across source target capability same
