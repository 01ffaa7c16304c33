-- ===== src/Dedup/Execute.antt =====
-- `execute_dedup_group` of crates/modeld-core/src/dedup.rs on Unix. The UUID of the transaction is an
-- argument; serde_json, the digest, the devices and the canonical paths are parameters.
use model_id.Base.{
  ℕ, ◌*◌, ◌%◌, ◌^◌, Bool, true, false, Option, none, some, List, [], ◌∷◌, ◌++◌, map, length,
  list_eq, nat_eq, ◌==◌,
}
use model_id.Base.Text.{Text, codes}
use model_id.Base.Results.{hash_mismatch}
use model_id.Hash.{Blake3Hash, as_hex}
use model_id.Hash.Reading.{hash_file}
use model_id.Db.Wal
use model_id.Db.Enums
use model_id.Db.Enums.{AliasType, hardlink, symlink, junction, reference_only, original, user}
use model_id.Cas
use model_id.Cas.{make_parent, promote, touch}
use model_id.Tx.{PathEntry, RollbackPlan, update_wal_status, update_wal_extended, commit, fail}
use model_id.Tx
use model_id.Links.{LinkCapability}
use model_id.Dedup.{DedupEngine, DuplicateGroup, CanonicalSelection, path_text, select_canonical}
use model_id.Sys.{FilePath, M, pure, throw, gets, try, now, ◌>>=◌, ◌>>◌}
use model_id.Sys.Files.{join, parent, exists, create_dir_all, copy, remove_file}
use model_id.Sys.Tables.{attempt}
use model_id.Dedup.Linking.{
  DedupGroupResult, no_links, cas_path_for_hash, link_duplicates, link_canonical, link_group,
}

pub data DedupMode : Type 0 where
  interactive dry_run auto report : DedupMode

abbrev pub only_reports : DedupMode → Bool
only_reports interactive = false
only_reports dry_run = true
only_reports auto = false
only_reports report = true

abbrev pub or_empty : Option Text → Text
or_empty none = []
or_empty (some t) = t

abbrev pub entry_for : DuplicateGroup → FilePath → FilePath → PathEntry
entry_for group cas_path p = record {
  source = p;
  target = some cas_path;
  original_hash = some group.hash;
  new_hash = none;
  size = group.total_size;
}

abbrev pub checked : Text → FilePath → Bool → M (Unit {0})
checked tx_id staging true = pure tt
checked tx_id staging false = do
  try (remove_file staging)
  try (fail tx_id (codes "Hash mismatch during staging"))
  throw hash_mismatch

module _ (e : DedupEngine) where
  abbrev pub staging_dir : FilePath
  staging_dir = join (join e.store_path (codes "tmp")) (codes "cas_staging")

  abbrev pub staging_path : Blake3Hash → FilePath
  staging_path hash = join staging_dir (as_hex hash ++ codes ".tmp")

  -- The object comes to its place.
  unfoldable pub publish : DuplicateGroup → Bool → M (Unit {0})
  publish group true = pure tt
  publish group false = do
    make_parent (parent (cas_path_for_hash e group.hash))
    promote (Cas.new e.store_path) (staging_path group.hash) (cas_path_for_hash e group.hash)
    try (touch (cas_path_for_hash e group.hash))
    pure tt

  module _ (json : Tx.Serde) (paths_json : List Text → Option Text) where
    -- The row of the transaction, in two statements.
    unfoldable pub open_wal : Text → DuplicateGroup → CanonicalSelection → M (Unit {0})
    unfolding update_wal_extended path_text
    open_wal tx_id group s = do
      at ← now
      attempt (
          Wal.insert_wal_transaction at tx_id (codes "dedup") Enums.pending
            (some (path_text s.canonical)) (some (as_hex group.hash))
            (paths_json (map path_text s.duplicates)))
      update_wal_extended tx_id (some (codes "dedup"))
          (some (
            or_empty (
              json.paths_to_string (
                map (entry_for group (cas_path_for_hash e group.hash))
                  (s.canonical ∷ s.duplicates)))))
          (some (
            or_empty (
              json.plan_to_string (record {
                entries = map (entry_for group (cas_path_for_hash e group.hash)) s.duplicates;
              }))))
          none none

  module _ (blake3 : Text → Blake3Hash) where
    -- Phase A, for an object that is not there yet.
    unfoldable pub prepare : Text → DuplicateGroup → FilePath → Bool → M (Unit {0})
    unfolding hash_file fail
    prepare tx_id group canonical true = pure tt
    prepare tx_id group canonical false = do
      copy canonical (staging_path group.hash)
      staged ← hash_file blake3 (staging_path group.hash)
      checked tx_id (staging_path group.hash) (as_hex staged == as_hex group.hash)

  module _ (json : Tx.Serde) (paths_json : List Text → Option Text) (blake3 : Text → Blake3Hash)
      (device : FilePath → ℕ) (canonicalize : FilePath → Option FilePath)
      (capability : LinkCapability) where
    unfoldable pub run_group : Text → DuplicateGroup → CanonicalSelection → M DedupGroupResult
    unfolding open_wal prepare publish link_duplicates link_canonical commit update_wal_status
    run_group tx_id group s = do
      create_dir_all staging_dir
      open_wal json paths_json tx_id group s
      already_in_cas ← gets (exists (cas_path_for_hash e group.hash))
      prepare blake3 tx_id group s.canonical already_in_cas
      update_wal_status tx_id Enums.copied
      publish group already_in_cas
      link_group e blake3 device canonicalize capability tx_id group s

    abbrev pub run_or_report :
        Text → DuplicateGroup → CanonicalSelection → Bool → M DedupGroupResult
    run_or_report tx_id group s true = pure (record (no_links group s) {
      space_saved = group.total_size * length s.duplicates % 2 ^ 64;
    })
    run_or_report tx_id group s false = run_group tx_id group s

    unfoldable pub execute_dedup_group : Text → DuplicateGroup → DedupMode → M DedupGroupResult
    unfolding select_canonical run_group
    execute_dedup_group tx_id group mode = do
      s ← select_canonical blake3 e group.files
      run_or_report tx_id group s (only_reports mode)
