-- ===== src/Dedup/Run.antt =====
-- `run_dedup` of crates/modeld-core/src/dedup.rs: the groups, one behind the other. The UUID of each
-- group's transaction is an argument. A group that `find_duplicates` gives has two files or more, so
-- that nothing in its execution panics.
use model_id.Base.{
  ℕ, ◌+◌, ◌%◌, ◌^◌, Option, List, [], ◌∷◌, ◌++◌, length, ltb, if◌then◌else◌, list_eq, nat_eq,
}
use model_id.Base.Text.{Text}
use model_id.Base.Results.{Result, ok, err, panic}
use model_id.Hash.{Blake3Hash, as_hex}
use model_id.Tx
use model_id.Links.{LinkCapability}
use model_id.Dedup.{DedupEngine, DuplicateGroup}
use model_id.Dedup.Find.{find_duplicates}
use model_id.Dedup.Linking.{DedupGroupResult}
use model_id.Dedup.Execute.{DedupMode, execute_dedup_group}
use model_id.Dedup.Recover.{recover_incomplete_transactions}
use model_id.Sys.{FilePath, M, pure, throw, try, ◌>>=◌}

pub record DedupStats : Type 0 where
  pub groups_processed : ℕ
  pub groups_succeeded : ℕ
  pub groups_failed : ℕ
  pub space_saved : ℕ
  pub files_deduplicated : ℕ
  pub locked_files_skipped : ℕ
  pub locked_files : List FilePath

abbrev pub no_stats : DedupStats
no_stats = record {
  groups_processed = 0;
  groups_succeeded = 0;
  groups_failed = 0;
  space_saved = 0;
  files_deduplicated = 0;
  locked_files_skipped = 0;
  locked_files = [];
}

-- One group's result.
abbrev pub tally : DedupStats → Result DedupGroupResult → DedupStats
tally stats (err x) = record stats {
  groups_processed = stats.groups_processed + 1;
  groups_failed = stats.groups_failed + 1;
}
tally stats (ok result) = record stats {
  groups_processed = stats.groups_processed + 1;
  groups_succeeded = stats.groups_succeeded + 1;
  space_saved = (stats.space_saved + result.space_saved) % 2 ^ 64;
  files_deduplicated = stats.files_deduplicated + length result.links_created;
  locked_files_skipped = stats.locked_files_skipped + length result.locked_files;
  locked_files = stats.locked_files ++ result.locked_files;
}

module _ (json : Tx.Serde) (paths_json : List Text → Option Text) (blake3 : Text → Blake3Hash)
    (device : FilePath → ℕ) (canonicalize : FilePath → Option FilePath)
    (capability : LinkCapability) (e : DedupEngine) (uuid : DuplicateGroup → Text)
    (mode : DedupMode) where
  -- `&group.hash.as_hex()[..8]` panics on a shorter text.
  unfoldable pub run_groups : DedupStats → List DuplicateGroup → M DedupStats
  unfolding as_hex execute_dedup_group
  run_groups stats [] = pure stats
  run_groups stats (group ∷ groups) = if ltb (length (as_hex group.hash)) 8 then throw panic else do
    result ← try (
        execute_dedup_group e json paths_json blake3 device canonicalize capability (uuid group)
          group mode)
    run_groups (tally stats result) groups

  unfoldable pub run_dedup :
      (FilePath → ℕ) → (Text → FilePath) → (Text → Option (List Text)) → M DedupStats
  unfolding recover_incomplete_transactions find_duplicates run_groups
  run_dedup modified path_of texts_from_str = do
    recovered ← recover_incomplete_transactions device capability path_of texts_from_str e
    groups ← find_duplicates modified e
    run_groups no_stats groups
