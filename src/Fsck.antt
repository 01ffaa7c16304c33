-- ===== src/Fsck.antt =====
-- crates/modeld-core/src/fsck.rs: the checks of the database against the objects and the aliases, and
-- the repair. The digest of a text is a parameter.
pub mod Verify
pub mod Repair
pub mod Reads
pub mod Safe
pub mod Orphans
pub mod Repaired
mod Tests
use mathlib.Core.Bool.{not}
use model_id.Base.{
  ℕ, zero, suc, ◌+◌, Bool, true, false, ◌&&◌, Option, none, some, List, [], ◌∷◌, ◌++◌, map, length,
  if◌then◌else◌, list_eq, nat_eq, ◌==◌, contains,
}
use model_id.Base.Text.{Text, codes}
use model_id.Base.Results.{Result, ok, err, Error}
use model_id.Hash.{Blake3Hash, as_hex}
use model_id.Hash.Reading.{hash_file}
use model_id.Db.{Database, Model, Alias}
use model_id.Db.Models.{list_models}
use model_id.Db.Aliases.{delete_alias, list_all_aliases}
use model_id.Scanner.{is_empty}
use model_id.Cas
use model_id.Cas.{CasStore, get, cas_root}
use model_id.Sys.{FilePath, World, M, pure, gets, try, ◌>>=◌, ◌>>◌}
use model_id.Sys.Files.{join, file_name, extension, exists, metadata_len, read_dir, remove_file}
use model_id.Sys.Walk.{is_dir, entries_of, remove_dir, deepest}
use model_id.Sys.Tables.{query, execute}

pub record DanglingAlias : Type 0 where
  pub path : FilePath
  pub model_hash : Blake3Hash

pub record SizeMismatch : Type 0 where
  pub hash : Blake3Hash
  pub db_size : ℕ
  pub disk_size : ℕ

pub record FsckReport : Type 0 where
  pub missing_cas : List Blake3Hash
  pub dangling_aliases : List DanglingAlias
  pub size_mismatches : List SizeMismatch
  pub orphan_cas : List FilePath

-- `FsckReport::is_clean`
abbrev pub is_clean_fsck : FsckReport → Bool
is_clean_fsck r =
    is_empty r.missing_cas
    && is_empty r.dangling_aliases
    && is_empty r.size_mismatches
    && is_empty r.orphan_cas

-- `FsckReport::total_issues`
abbrev pub total_issues_fsck : FsckReport → ℕ
total_issues_fsck r =
    length r.missing_cas
    + length r.dangling_aliases
    + length r.size_mismatches
    + length r.orphan_cas

abbrev pub empty_fsck : FsckReport
empty_fsck = record {
  missing_cas = [];
  dangling_aliases = [];
  size_mismatches = [];
  orphan_cas = [];
}

-- `HashSet` of the hashes of the models
abbrev pub known_hashes : List Model → List Text
known_hashes = map (λ (m : Model). as_hex m.blake3_hash)

-- The size on disk where it could be read and is not the one of the database.
abbrev pub mismatch : Model → Result ℕ → List SizeMismatch
mismatch m (err e) = []
mismatch m (ok disk_size) =
    if disk_size == m.size_bytes
    then []
    else record { hash = m.blake3_hash; db_size = m.size_bytes; disk_size = disk_size } ∷ []

-- Steps 1 and 3 for one model.
abbrev pub fsck_object : Model → FsckReport → Option FilePath → M FsckReport
fsck_object m r none = pure (record r { missing_cas = r.missing_cas ++ m.blake3_hash ∷ [] })
fsck_object m r (some cas_path) = do
  meta ← try (metadata_len cas_path)
  pure (record r { size_mismatches = r.size_mismatches ++ mismatch m meta })

unfoldable pub fsck_models : CasStore → List Model → FsckReport → M FsckReport
fsck_models cas [] r = pure r
fsck_models cas (m ∷ ms) r = do
  found ← gets (get cas m.blake3_hash)
  r' ← fsck_object m r found
  fsck_models cas ms r'

-- Step 2: the aliases whose path is not there.
unfoldable pub dangling : List Alias → World → List DanglingAlias
dangling [] w = []
dangling (a ∷ rest) w =
    let more = dangling rest w in
    if exists a.path w then more else record { path = a.path; model_hash = a.model_hash } ∷ more

-- Step 4: the objects in one directory of the store that no model is known of.
unfoldable pub orphans_in : List Text → List FilePath → List FilePath
orphans_in known [] = []
orphans_in known (p ∷ ps) =
    let more = orphans_in known ps in if contains known (file_name p) then more else p ∷ more

abbrev pub prefix_objects : FilePath → Bool → M (List FilePath)
prefix_objects p false = pure []
prefix_objects p true = do found ← try (read_dir p); pure (entries_of found)

unfoldable pub fsck_prefixes : List Text → List FilePath → FsckReport → M FsckReport
unfolding orphans_in
fsck_prefixes known [] r = pure r
fsck_prefixes known (p ∷ ps) r = do
  below ← gets (is_dir p)
  objects ← prefix_objects p below
  fsck_prefixes known ps (record r { orphan_cas = r.orphan_cas ++ orphans_in known objects })

abbrev pub root_entries : FilePath → Bool → M (List FilePath)
root_entries p false = pure []
root_entries p true = do found ← try (read_dir p); pure (entries_of found)

unfoldable pub run_fsck : FilePath → M FsckReport
unfolding fsck_models dangling fsck_prefixes
run_fsck store_path = do
  models ← query (list_models none)
  r ← fsck_models (Cas.new store_path) models empty_fsck
  aliases ← query list_all_aliases
  lost ← gets (dangling aliases)
  there ← gets (exists (cas_root (Cas.new store_path)))
  prefixes ← root_entries (cas_root (Cas.new store_path)) there
  fsck_prefixes (known_hashes models) prefixes (record r { dangling_aliases = lost })
