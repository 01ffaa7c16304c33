-- ===== src/Quarantine.antt =====
-- crates/modeld-core/src/quarantine.rs: files are moved aside with a metadata file beside them. The
-- JSON text of the metadata is serde_json's, a parameter.
pub mod Moves
pub mod Safe
pub mod Cleanup
pub mod Success
pub mod Codec
mod Tests
pub mod Restored
use mathlib.Core.Bool.{not}
use model_id.Base.{
  ℕ, ◌+◌, ◌-◌, ◌*◌, ◌/◌, ◌%◌, ◌^◌, ◌≡◌, Bool, true, false, ◌&&◌, Option, none, some, List, [], ◌∷◌,
  ◌++◌, ltb, if◌then◌else◌, list_eq, nat_eq, ◌==◌, length, select,
}
use model_id.Base.Text.{Text, codes}
use model_id.Base.Decimal.{show}
use model_id.Base.Results.{Result, ok, err, Error, io_error, parse_error, no_metadata, occupied}
use model_id.Sys.{FilePath, World, M, pure, throw, gets, try, now, ◌>>=◌, ◌>>◌}
use model_id.Sys.Files.{
  join, parent, file_name, extension, exists, is_some, create_dir_all, metadata_len, read_to_string,
  write, copy, rename, remove_file, read_dir,
}
use model_id.Db.Table.{order_desc}

-- The paths in it are kept by their components.
pub record QuarantineMeta : Type 0 where
  pub original_path : FilePath
  pub quarantined_at : ℕ
  pub reason : Text
  pub blake3_hash : Text
  pub size_bytes : ℕ
  pub references : List FilePath

pub record QuarantineEntry : Type 0 where
  pub quarantine_path : FilePath
  pub meta : QuarantineMeta
  pub days_remaining : Option ℕ

pub record QuarantineStats : Type 0 where
  pub total_files : ℕ
  pub total_size : ℕ
  pub expired_files : ℕ

-- The texts of the metadata: serde_json on `QuarantineMeta`, and `to_string_lossy` on the path, which
-- puts a replacement character for what is not UTF-8.
pub record Serde : Type 0 where
  pub to_string_lossy : FilePath → FilePath
  pub to_string_pretty : QuarantineMeta → Option Text
  pub from_str : Text → Option QuarantineMeta

-- What was written is read back.
pub record RoundTrips (json : Serde) : Type 0 where
  pub from-to :
      (m : QuarantineMeta) (t : Text) → json.to_string_pretty m ≡ some t → json.from_str t ≡ some m

pub record QuarantineManager : Type 0 where
  pub quarantine_dir : FilePath
  pub ttl_days : ℕ

abbrev pub new : FilePath → QuarantineManager
new store_path = record { quarantine_dir = join store_path (codes "quarantine"); ttl_days = 30 }

abbrev pub with_ttl : FilePath → ℕ → QuarantineManager
with_ttl store_path ttl_days = record {
  quarantine_dir = join store_path (codes "quarantine");
  ttl_days = ttl_days;
}

-- Nanoseconds in a second and in a day.
abbrev pub second : ℕ
second = 1000000000

abbrev pub day : ℕ
day = 86400000000000

-- `{hash}.{timestamp}`
unfoldable pub file_name_for : Text → ℕ → Text
file_name_for hash now = hash ++ b'.' ∷ show (now / second)

abbrev pub meta_name : Text → Text
meta_name name = name ++ codes ".meta"

abbrev pub or_throw {ℓ} : {A : Type ℓ} → Error → Option A → M A
or_throw e none = throw e
or_throw e (some a) = pure a

abbrev pub failed {ℓ} : {A : Type ℓ} → Result A → Bool
failed (ok a) = false
failed (err e) = true

-- Rename first (atomic), else copy and delete.
unfoldable pub move_file : FilePath → FilePath → M (Unit {0})
move_file from to = do
  renamed ← try (rename from to)
  if failed renamed then (do copy from to; remove_file from) else pure tt

-- `path.extension().map(|e| e == "meta").unwrap_or(false)`
abbrev pub is_meta : FilePath → Bool
is_meta path = elim (extension (file_name path)) [ none ↦ false | some e ↦ e == codes "meta" ]

abbrev pub parsed : Serde → Text → M QuarantineMeta
parsed json text = or_throw parse_error (json.from_str text)

abbrev pub make_parent : Option FilePath → M (Unit {0})
make_parent none = pure tt
make_parent (some p) = create_dir_all p

module _ (json : Serde) (q : QuarantineManager) where
  unfoldable pub init : M (Unit {0})
  init = create_dir_all q.quarantine_dir

  abbrev pub meta_path_for : FilePath → FilePath
  meta_path_for path = join q.quarantine_dir (meta_name (file_name path))

  unfoldable pub quarantine : FilePath → Text → Text → List FilePath → M FilePath
  unfolding init
  quarantine file_path hash reason references = do
    init
    at ← now
    let name = file_name_for hash at
    size ← metadata_len file_path
    text ← or_throw parse_error (
        json.to_string_pretty (record {
          original_path = json.to_string_lossy file_path;
          quarantined_at = at;
          reason = reason;
          blake3_hash = hash;
          size_bytes = size;
          references = references;
        }))
    write (join q.quarantine_dir (meta_name name)) text
    move_file file_path (join q.quarantine_dir name)
    pure (join q.quarantine_dir name)

  abbrev pub days_left : ℕ → QuarantineMeta → Option ℕ
  days_left now meta =
      let expiry = meta.quarantined_at + q.ttl_days * day in
      if ltb now expiry then some ((expiry - now) / day) else none

  -- What one file of the directory adds to the list.
  abbrev pub entry_of : ℕ → FilePath → Result Text → Option QuarantineEntry
  entry_of at path (err e) = none
  entry_of at path (ok text) = elim (json.from_str text) [
    | none ↦ none
    | some meta ↦
        some (record { quarantine_path = path; meta = meta; days_remaining = days_left at meta })
  ]

  unfoldable pub read_entry : ℕ → FilePath → M (Option QuarantineEntry)
  read_entry at path = do
    found ← gets (exists (meta_path_for path))
    if not found
        then pure none
        else do text ← try (read_to_string (meta_path_for path)); pure (entry_of at path text)

  abbrev pub onto : Option QuarantineEntry → List QuarantineEntry → List QuarantineEntry
  onto none es = es
  onto (some e) es = e ∷ es

  -- The loop over the directory, which passes over the metadata files.
  unfoldable pub read_entries : ℕ → List FilePath → M (List QuarantineEntry)
  unfolding read_entry
  read_entries at [] = pure []
  read_entries at (path ∷ paths) =
      let rest = read_entries at paths in
      if is_meta path
      then rest
      else do entry ← read_entry at path; more ← rest; pure (onto entry more)

  -- All entries, the newest first.
  unfoldable pub list : M (List QuarantineEntry)
  unfolding read_entries order_desc
  list = do
    there ← gets (exists q.quarantine_dir)
    if not there then pure [] else do
      at ← now
      paths ← read_dir q.quarantine_dir
      entries ← read_entries at paths
      pure (order_desc (λ (e : QuarantineEntry). e.meta.quarantined_at) entries)

  unfoldable pub restore : FilePath → M FilePath
  unfolding move_file
  restore quarantine_path = do
    found ← gets (exists (meta_path_for quarantine_path))
    if not found then throw no_metadata else do
      text ← read_to_string (meta_path_for quarantine_path)
      meta ← parsed json text
      make_parent (parent meta.original_path)
      taken ← gets (exists meta.original_path)
      if taken then throw occupied else do
        move_file quarantine_path meta.original_path
        try (remove_file (meta_path_for quarantine_path))
        pure meta.original_path

  unfoldable pub delete_permanent : FilePath → M (Unit {0})
  delete_permanent quarantine_path = do
    remove_file quarantine_path
    found ← gets (exists (meta_path_for quarantine_path))
    if found then (do try (remove_file (meta_path_for quarantine_path)); pure tt) else pure tt

  abbrev pub tally : Result (Unit {0}) → ℕ → ℕ
  tally (ok u) n = n + 1
  tally (err e) n = n

  -- The loop of `cleanup_expired`, with the number of files that went so far.
  unfoldable pub delete_expired : List QuarantineEntry → ℕ → M ℕ
  unfolding delete_permanent
  delete_expired [] cleaned = pure cleaned
  delete_expired (entry ∷ entries) cleaned = elim entry.days_remaining [
    | none ↦ (do
      gone ← try (delete_permanent entry.quarantine_path)
      delete_expired entries (tally gone cleaned))
    | some d ↦ delete_expired entries cleaned
  ]

  unfoldable pub cleanup_expired : M ℕ
  unfolding list delete_expired
  cleanup_expired = do entries ← list; delete_expired entries 0

  abbrev total_bytes : List QuarantineEntry → ℕ
  total_bytes [] = 0
  total_bytes (e ∷ es) = e.meta.size_bytes + total_bytes es

  abbrev pub is_expired : QuarantineEntry → Bool
  is_expired e = not (is_some e.days_remaining)

  unfoldable pub stats : M QuarantineStats
  unfolding list
  stats = do
    entries ← list
    pure (record {
      total_files = length entries;
      total_size = total_bytes entries % 2 ^ 64;
      expired_files = length (select is_expired entries);
    })
