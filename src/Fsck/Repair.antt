-- ===== src/Fsck/Repair.antt =====
-- `run_repair` of crates/modeld-core/src/fsck.rs.
use model_id.Base.{
  ℕ, zero, suc, ◌+◌, Bool, true, false, List, [], ◌∷◌, ◌++◌, if◌then◌else◌, list_eq, nat_eq,
}
use model_id.Base.Results.{Result, ok, err, Error}
use model_id.Db.Aliases.{delete_alias}
use model_id.Sys.{FilePath, M, pure, gets, try, ◌>>=◌, ◌>>◌}
use model_id.Sys.Files.{exists, read_dir, remove_file}
use model_id.Sys.Walk.{is_dir, entries_of, remove_dir, deepest}
use model_id.Sys.Tables.{execute}
use model_id.Fsck.Verify.{OrphanRecord, VerifyReport, staging_root}

pub record RepairResult : Type 0 where
  pub orphan_records_removed : ℕ
  pub staging_files_removed : ℕ
  pub errors : List Error

abbrev pub no_repair : RepairResult
no_repair = record { orphan_records_removed = 0; staging_files_removed = 0; errors = [] }

abbrev pub count_record : RepairResult → Result (Unit {0}) → RepairResult
count_record r (ok u) = record r { orphan_records_removed = r.orphan_records_removed + 1 }
count_record r (err e) = record r { errors = r.errors ++ e ∷ [] }

abbrev pub count_file : RepairResult → Result (Unit {0}) → RepairResult
count_file r (ok u) = record r { staging_files_removed = r.staging_files_removed + 1 }
count_file r (err e) = record r { errors = r.errors ++ e ∷ [] }

unfoldable pub remove_records : List OrphanRecord → RepairResult → M RepairResult
remove_records [] r = pure r
remove_records (o ∷ os) r = do
  done ← try (execute (delete_alias o.alias_path))
  remove_records os (count_record r done)

unfoldable pub remove_residue : List FilePath → RepairResult → M RepairResult
remove_residue [] r = pure r
remove_residue (p ∷ ps) r = do done ← try (remove_file p); remove_residue ps (count_file r done)

abbrev pub remove_below : (FilePath → M (Unit {0})) → Bool → FilePath → M (Unit {0})
remove_below recur false p = pure tt
remove_below recur true p = do recur p; try (remove_dir p); pure tt

-- The loop of `remove_empty_dirs`, with `recur` for the recursive call.
unfoldable pub remove_entries : (FilePath → M (Unit {0})) → List FilePath → M (Unit {0})
unfolding remove_dir
remove_entries recur [] = pure tt
remove_entries recur (p ∷ ps) = do
  below ← gets (is_dir p)
  remove_below recur below p
  remove_entries recur ps

unfoldable pub remove_within : ℕ → FilePath → M (Unit {0})
unfolding remove_entries
remove_within zero dir = pure tt
remove_within (suc n) dir = do
  entries ← try (read_dir dir)
  remove_entries (remove_within n) (entries_of entries)

unfoldable pub remove_empty_dirs : FilePath → M (Unit {0})
unfolding remove_within deepest
remove_empty_dirs dir = do levels ← gets (λ w. deepest w.fs); remove_within (suc levels) dir

unfoldable pub run_repair : FilePath → VerifyReport → M RepairResult
unfolding remove_records remove_residue remove_empty_dirs
run_repair store report = do
  r ← remove_records report.orphan_db_records no_repair
  r' ← remove_residue report.staging_residue r
  there ← gets (exists (staging_root store))
  (if there then remove_empty_dirs (staging_root store) else pure tt)
  pure r'
