-- ===== src/Fsck/Verify.antt =====
-- `run_verify` of crates/modeld-core/src/fsck.rs: sizes, digests, orphan records and what is left of
-- stagings.
use mathlib.Core.Bool.{not}
use model_id.Base.{
  ℕ, zero, suc, ◌+◌, Bool, true, false, ◌&&◌, Option, none, some, List, [], ◌∷◌, ◌++◌, length,
  if◌then◌else◌, list_eq, nat_eq, ◌==◌, contains,
}
use model_id.Base.Text.{Text, codes}
use model_id.Base.Results.{Result, ok, err}
use model_id.Hash.{Blake3Hash, as_hex}
use model_id.Hash.Reading.{hash_file}
use model_id.Db.{Model, Alias}
use model_id.Db.Models.{list_models}
use model_id.Db.Aliases.{list_all_aliases}
use model_id.Scanner.{is_empty}
use model_id.Cas
use model_id.Cas.{CasStore, get, cas_root}
use model_id.Sys.{FilePath, World, M, pure, gets, try, ◌>>=◌}
use model_id.Sys.Files.{join, file_name, extension, exists, metadata_len, read_dir}
use model_id.Sys.Walk.{is_dir, entries_of, deepest}
use model_id.Sys.Tables.{query}
use model_id.Fsck.{SizeMismatch, known_hashes, mismatch}

pub record MissingCasObject : Type 0 where
  pub hash : Blake3Hash
  pub db_size : ℕ

pub record HashMismatch : Type 0 where
  pub hash : Blake3Hash
  pub cas_path : FilePath
  pub expected_hex : Text
  pub computed_hex : Text

pub record OrphanRecord : Type 0 where
  pub alias_path : FilePath
  pub model_hash : Blake3Hash

pub record VerifyReport : Type 0 where
  pub missing_cas_objects : List MissingCasObject
  pub size_mismatches : List SizeMismatch
  pub hash_mismatches : List HashMismatch
  pub orphan_db_records : List OrphanRecord
  pub staging_residue : List FilePath

abbrev pub is_clean : VerifyReport → Bool
is_clean r =
    is_empty r.missing_cas_objects
    && is_empty r.size_mismatches
    && is_empty r.hash_mismatches
    && is_empty r.orphan_db_records
    && is_empty r.staging_residue

abbrev pub total_issues : VerifyReport → ℕ
total_issues r =
    length r.missing_cas_objects
    + length r.size_mismatches
    + length r.hash_mismatches
    + length r.orphan_db_records
    + length r.staging_residue

abbrev pub empty_report : VerifyReport
empty_report = record {
  missing_cas_objects = [];
  size_mismatches = [];
  hash_mismatches = [];
  orphan_db_records = [];
  staging_residue = [];
}

-- The digest that was computed, where it is not the one of the database.
abbrev pub hash_mismatch_of : Model → FilePath → Result Blake3Hash → List HashMismatch
hash_mismatch_of m p (err e) = []
hash_mismatch_of m p (ok computed) =
    if as_hex computed == as_hex m.blake3_hash
    then []
    else record {
      hash = m.blake3_hash;
      cas_path = p;
      expected_hex = as_hex m.blake3_hash;
      computed_hex = as_hex computed;
    }
      ∷ []

module _ (blake3 : Text → Blake3Hash) where
  -- The digest is computed only on demand.
  abbrev pub deep_check : Bool → Model → FilePath → VerifyReport → M VerifyReport
  deep_check false m p r = pure r
  deep_check true m p r = do
    computed ← try (hash_file blake3 p)
    pure (record r { hash_mismatches = r.hash_mismatches ++ hash_mismatch_of m p computed })

  -- What follows a size that could be read.
  abbrev pub verify_size : Bool → Model → FilePath → VerifyReport → Result ℕ → M VerifyReport
  verify_size deep m p r (err e) = pure r
  verify_size deep m p r (ok size) =
      deep_check deep m p (record r { size_mismatches = r.size_mismatches ++ mismatch m (ok size) })

  abbrev pub verify_object : Bool → Model → VerifyReport → Option FilePath → M VerifyReport
  verify_object deep m r none = pure (record r {
    missing_cas_objects =
        r.missing_cas_objects ++ record { hash = m.blake3_hash; db_size = m.size_bytes } ∷ [];
  })
  verify_object deep m r (some p) = do meta ← try (metadata_len p); verify_size deep m p r meta

  unfoldable pub verify_models : CasStore → Bool → List Model → VerifyReport → M VerifyReport
  unfolding hash_file
  verify_models cas deep [] r = pure r
  verify_models cas deep (m ∷ ms) r = do
    found ← gets (get cas m.blake3_hash)
    r' ← verify_object deep m r found
    verify_models cas deep ms r'

-- An alias of a model without a row, or without an object.
abbrev pub is_orphan : CasStore → List Text → World → Alias → Bool
is_orphan cas known w a =
    if not (contains known (as_hex a.model_hash))
    then true
    else not (Cas.contains cas a.model_hash w)

abbrev pub orphan_record : Alias → OrphanRecord
orphan_record a = record { alias_path = a.path; model_hash = a.model_hash }

unfoldable pub orphan_records : CasStore → List Text → List Alias → World → List OrphanRecord
orphan_records cas known [] w = []
orphan_records cas known (a ∷ rest) w =
    let more = orphan_records cas known rest w in
    if is_orphan cas known w a then orphan_record a ∷ more else more

abbrev pub has_part_extension : FilePath → Bool
has_part_extension p = elim (extension (file_name p)) [ none ↦ false | some e ↦ e == codes "part" ]

abbrev pub collect_entry :
    (FilePath → List FilePath → M (List FilePath))
    → Bool
    → FilePath
    → List FilePath
    → M (List FilePath)
collect_entry collect true p out = collect p out
collect_entry collect false p out = pure (if has_part_extension p then out ++ p ∷ [] else out)

-- The loop over the entries of a directory, with `collect` for the recursive call.
unfoldable pub collect_entries :
    (FilePath → List FilePath → M (List FilePath))
    → List FilePath
    → List FilePath
    → M (List FilePath)
unfolding extension file_name
collect_entries collect [] out = pure out
collect_entries collect (p ∷ ps) out = do
  below ← gets (is_dir p)
  out' ← collect_entry collect below p out
  collect_entries collect ps out'

-- The body of `collect_part_files`.
unfoldable pub collect_step :
    (FilePath → List FilePath → M (List FilePath)) → FilePath → List FilePath → M (List FilePath)
unfolding collect_entries
collect_step collect dir out = do
  entries ← try (read_dir dir)
  collect_entries collect (entries_of entries) out

-- With so many levels at most.
unfoldable pub collect_within : ℕ → FilePath → List FilePath → M (List FilePath)
unfolding collect_step
collect_within zero dir out = pure out
collect_within (suc n) dir out = collect_step (collect_within n) dir out

unfoldable pub collect_part_files : FilePath → List FilePath → M (List FilePath)
unfolding collect_within deepest
collect_part_files dir out = do
  levels ← gets (λ w. deepest w.fs)
  collect_within (suc levels) dir out

abbrev pub staging_root : FilePath → FilePath
staging_root store = join (join store (codes "tmp")) (codes "cas_staging")

abbrev pub residue : FilePath → Bool → M (List FilePath)
residue store false = pure []
residue store true = collect_part_files (staging_root store) []

module _ (blake3 : Text → Blake3Hash) (store : FilePath) where
  unfoldable pub run_verify : Bool → M VerifyReport
  unfolding verify_models orphan_records collect_part_files
  run_verify deep = do
    models ← query (list_models none)
    r ← verify_models blake3 (Cas.new store) deep models empty_report
    aliases ← query list_all_aliases
    orphans ← gets (orphan_records (Cas.new store) (known_hashes models) aliases)
    there ← gets (exists (staging_root store))
    left ← residue store there
    pure (record r { orphan_db_records = orphans; staging_residue = left })
