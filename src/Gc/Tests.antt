-- ===== src/Gc/Tests.antt =====
-- The collector on a small store: the theorems at concrete worlds.
use model_id.Base.{◌%◌, ◌^◌}
use model_id.Base.{◌≡◌, ◌↔◌, refl, inl, none, some, [], ◌∷◌, map, select, arith, list_eq, nat_eq}
use model_id.Base.Text.{codes}
use model_id.Base.Dict.{lookup}
use model_id.Base.Results.{ok}
use model_id.Hash.{Blake3Hash, as_hex, prefix}
use model_id.Db.{Database}
use model_id.Db.Enums.{hardlink, comfy_ui}
use model_id.Db.Models.{new_model}
use model_id.Db.Counts.{get_gc_candidate_counts}
use model_id.Db.Table.{count_where}
use model_id.Sys.{file, fine, fails, torn, World}
use model_id.Sys.Results.{Ends}
use model_id.Sys.Sample.{empty_db, store, world}
use model_id.Cas.{path_for_hash}
use model_id.Quarantine.Codec.{codec}
use model_id.Gc.{
  new, run_safe, preview, orphan_candidate, classify_refs, explain_refs, list_orphans,
  hash_prefix_of, is_free,
}
use model_id.Gc.Agree.{prefixes_of, sizes_of, preview-list_orphans, classify_refs-explain_refs}
use model_id.Gc.Safe.{run_safe-Kept}

abbrev kept_hash : Blake3Hash
kept_hash = record { hex = codes "aabb" }

abbrev free_hash : Blake3Hash
free_hash = record { hex = codes "ccdd" }

-- Two models, one of them with an alias.
abbrev two_models : Database
two_models = record empty_db {
  models =
      new_model 1 5 kept_hash 7 none none none none
      ∷ new_model 2 6 free_hash 5 none none none none
      ∷ [];
  aliases =
      record {
        id = 1;
        model_hash = kept_hash;
        path = codes "models" ∷ codes "a.bin" ∷ [];
        frontend = comfy_ui;
        alias_type = hardlink;
        created_at = 5;
      }
      ∷ [];
}

abbrev two_files : World
two_files =
    world
      ((path_for_hash (new store).cas kept_hash, file (codes "weights"))
        ∷ (path_for_hash (new store).cas free_hash, file (codes "other"))
        ∷ [])
      two_models (fine ∷ fine ∷ fine ∷ fine ∷ fine ∷ fails ∷ torn 2 ∷ [])

run_safe-Kept_example :
    lookup (path_for_hash (new store).cas kept_hash) (run_safe codec (new store) two_files).1.fs
    ≡ some (file (codes "weights"))
unfolding lookup list_eq nat_eq path_for_hash as_hex prefix count_where
run_safe-Kept_example =
    run_safe-Kept codec store kept_hash (codes "weights") two_files (inl (omega arith)) refl

preview-list_orphans_example :
    Ends
      (λ p _.
        (prefixes_of p.would_quarantine ≡ map hash_prefix_of (list_orphans two_models))
        × (p.total_reclaimable_bytes
            ≡ sizes_of (select is_free (get_gc_candidate_counts two_models)) % 2 ^ 64))
      (λ _. Unit)
      (preview codec (new store) two_files)
preview-list_orphans_example = preview-list_orphans codec (new store) two_files

classify_refs-explain_refs_example :
    classify_refs (ok (get_gc_candidate_counts two_models)) free_hash ≡ orphan_candidate
    ↔ explain_refs two_models free_hash ≡ []
classify_refs-explain_refs_example = classify_refs-explain_refs two_models free_hash
