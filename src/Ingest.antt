-- ===== src/Ingest.antt =====
-- crates/modeld-core/src/ingest.rs: files of a scan go to the store and the database. The digest is
-- the blake3 package's, a parameter; of an error only its kind is kept.
mod Tests
pub mod Stored
pub mod Untouched
use model_id.Base.{
  ℕ, ◌+◌, ◌%◌, ◌^◌, Bool, true, false, Option, none, some, List, [], ◌∷◌, ◌++◌, if◌then◌else◌,
  list_eq, nat_eq, ◌==◌,
}
use model_id.Base.Text.{Text}
use model_id.Base.Results.{Result, ok, err, Error, hash_mismatch}
use model_id.Hash.{Blake3Hash, as_hex}
use model_id.Hash.Reading.{hash_file}
use model_id.Db.{Alias}
use model_id.Db.Enums.{AliasType, original, Frontend, user}
use model_id.Db.Models.{insert_or_update_model}
use model_id.Db.Aliases.{insert_alias, get_alias_by_path}
use model_id.Db.PathIndex.{upsert_path_index}
use model_id.Governance.{no_value}
use model_id.Cas.{CasStore, new, store_crash_safe}
use model_id.Sys.{FilePath, M, pure, throw, try, now, ◌>>=◌, ◌>>◌}
use model_id.Sys.Tables.{query, execute, attempt}

pub record ScannedFile : Type 0 where
  pub path : FilePath
  pub size : ℕ
  pub hash : Blake3Hash
  pub from_cache : Bool
  pub mtime : ℕ
  pub inode : ℕ
  pub device_id : ℕ

pub record IngestError : Type 0 where
  pub path : FilePath
  pub reason : Error

pub record IngestResult : Type 0 where
  pub processed_count : ℕ
  pub bytes_processed : ℕ
  pub errors : List IngestError

abbrev pub no_result : IngestResult
no_result = record { processed_count = 0; bytes_processed = 0; errors = [] }

abbrev pub agrees : Bool → M (Unit {0})
agrees true = pure tt
agrees false = throw hash_mismatch

abbrev pub is_missing : Result (Option Alias) → Bool
is_missing (ok none) = true
is_missing (ok (some a)) = false
is_missing (err e) = true

-- The file's result goes to the errors or to the counts.
abbrev pub tally : ScannedFile → IngestResult → Result (Unit {0}) → IngestResult
tally file r (ok u) = record r {
  processed_count = r.processed_count + 1;
  bytes_processed = (r.bytes_processed + file.size) % 2 ^ 64;
}
tally file r (err e) = record r {
  errors = r.errors ++ record { path = file.path; reason = e } ∷ [];
}

module _ (blake3 : Text → Blake3Hash) (store_path : FilePath) (scan_id : Text) where
  -- A file whose hash is of a former scan is trusted.
  abbrev pub verify : ScannedFile → M (Unit {0})
  verify file =
      if file.from_cache
      then pure tt
      else do actual ← hash_file blake3 file.path; agrees (as_hex actual == as_hex file.hash)

  abbrev pub add_alias : ScannedFile → Bool → M (Unit {0})
  add_alias file missing =
      if missing
      then (do at ← now; try (attempt (insert_alias at file.hash file.path user original)); pure tt)
      else pure tt

  abbrev pub record_file : ScannedFile → M (Unit {0})
  record_file file = do
    at ← now
    execute (λ db. (insert_or_update_model at file.hash file.size none none none none db).1)
    found ← try (query (get_alias_by_path file.path))
    add_alias file (is_missing found)
    again ← now
    attempt (λ db. no_value (
        upsert_path_index again file.path file.hash file.size file.mtime file.inode file.device_id
          db))

  -- The body of the loop, up to the counts; each `continue` is an error.
  unfoldable pub ingest_file : ScannedFile → M (Unit {0})
  unfolding hash_file store_crash_safe
  ingest_file file = do
    verify file
    store_crash_safe (new store_path) blake3 file.path file.hash scan_id
    record_file file

  unfoldable pub ingest_all : IngestResult → List ScannedFile → M IngestResult
  unfolding ingest_file
  ingest_all r [] = pure r
  ingest_all r (file ∷ files) = do
    done ← try (ingest_file file)
    ingest_all (tally file r done) files

  unfoldable pub ingest_scan_results : List ScannedFile → M IngestResult
  unfolding ingest_all
  ingest_scan_results files = ingest_all no_result files
