-- ===== src/Fsck/Tests.antt =====
-- A check and a repair of a small store.
use model_id.Base.{◌≡◌, refl, true, false, none, some, [], ◌∷◌, list_eq, nat_eq}
use model_id.Base.Text.{Text, codes}
use model_id.Base.Dict.{lookup, erase}
use model_id.Base.Results.{ok, err}
use model_id.Hash.{Blake3Hash, as_hex, prefix}
use model_id.Db.{Database}
use model_id.Db.Enums.{hardlink, comfy_ui}
use model_id.Db.Models.{new_model, list_models}
use model_id.Db.Aliases.{delete_alias, list_all_aliases}
use model_id.Db.Table.{delete_where}
use model_id.Cas.{path_for_hash}
use model_id.Sys.Tables.{query, execute}
use model_id.Sys.{FilePath, World, file, dir, fine, call, ◌>>=◌}
use model_id.Sys.Files.{join, is_under, read_dir, remove_file, metadata_len}
use model_id.Sys.Results.{Ends}
use model_id.Sys.Sample.{empty_db, store, world}
use model_id.Fsck.Verify.{staging_root, run_verify}
use model_id.Fsck.Repair.{run_repair}
use model_id.Fsck.Safe.{IsResidue, run_verify-run_repair}
use model_id.Fsck.Repaired.{run_verify-run_repair-none}

abbrev digest : Text → Blake3Hash
digest t = record { hex = t }

abbrev hash : Blake3Hash
hash = record { hex = codes "abcd" }

-- A model without its object, with an alias, and a file that a staging left.
abbrev one_model : Database
one_model = record empty_db {
  models = new_model 1 5 hash 7 none none none none ∷ [];
  aliases =
      record {
        id = 1;
        model_hash = hash;
        path = codes "m" ∷ [];
        frontend = comfy_ui;
        alias_type = hardlink;
        created_at = 5;
      }
      ∷ [];
}

abbrev staging : FilePath
staging = join (staging_root store) (codes "tx")

abbrev sample : World
sample =
    world
      ((staging_root store, dir)
        ∷ (staging, dir)
        ∷ (join staging (codes "a.part"), file (codes "half"))
        ∷ (join staging (codes "notes"), file (codes "kept"))
        ∷ (codes "m" ∷ [], file (codes "weights"))
        ∷ [])
      one_model (fine ∷ [])

not-IsResidue : ¬ IsResidue store (codes "m" ∷ [])
unfolding is_under list_eq nat_eq
not-IsResidue (h, _) = cc

run_verify-run_repair_example :
    Ends
      (λ r v. lookup (codes "m" ∷ []) (run_repair store r v).1.fs ≡ some (file (codes "weights")))
      (λ v. lookup (codes "m" ∷ []) v.fs ≡ some (file (codes "weights")))
      (run_verify digest store true sample)
unfolding lookup list_eq nat_eq
run_verify-run_repair_example =
    run_verify-run_repair digest store true (codes "m" ∷ []) (codes "weights") sample not-IsResidue
      refl

run_verify-run_repair-none_example :
    Ends
      (λ report v.
        Ends
          (λ r u.
            r.errors ≡ []
            → Ends
                (λ report' _. report'.orphan_db_records ≡ [])
                (λ _. Unit)
                (run_verify digest store false u))
          (λ _. Unit)
          (run_repair store report v))
      (λ _. Unit)
      (run_verify digest store true sample)
run_verify-run_repair-none_example = run_verify-run_repair-none digest store true false sample

-- The check finds the alias and the file; the repair takes both away, with the empty directory left
-- as it holds another file.
abbrev repaired : World
repaired = elim (run_verify digest store true sample).0 [
  | ok r ↦ (run_repair store r (run_verify digest store true sample).1).1
  | err e ↦ sample
]

repaired_aliases : repaired.db.aliases ≡ []
unfolding run_verify run_repair query execute ◌>>=◌ list_models list_all_aliases path_for_hash
    delete_alias read_dir remove_file metadata_len lookup list_eq nat_eq as_hex prefix call erase
    delete_where
repaired_aliases = refl

repaired_files :
    (lookup (join staging (codes "a.part")) repaired.fs ≡ none)
    × (lookup (join staging (codes "notes")) repaired.fs ≡ some (file (codes "kept")))
unfolding run_verify run_repair query execute ◌>>=◌ list_models list_all_aliases path_for_hash
    delete_alias read_dir remove_file metadata_len lookup list_eq nat_eq as_hex prefix call erase
    delete_where
repaired_files = (refl, refl)
