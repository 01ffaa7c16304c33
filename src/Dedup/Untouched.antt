-- ===== src/Dedup/Untouched.antt =====
-- What `execute_dedup_group` (crates/modeld-core/src/dedup.rs) does to the files that are not of its
-- group.
use model_id.Base.{
  ℕ, ◌≡◌, ◌≢◌, inl, inr, sym, ap, subst, ◌∙◌, Bool, true, false, Option, some, List, [], ◌∷◌, All,
  list_eq, nat_eq,
}
use model_id.Base.Text.{Text}
use model_id.Base.Dict.{lookup}
use model_id.Hash.{Blake3Hash}
use model_id.Db.Enums
use model_id.Tx
use model_id.Tx.Rollback.{update_wal_status-Keeps}
use model_id.Links.{LinkCapability}
use model_id.Dedup.{DedupEngine, FileInfo, DuplicateGroup, CanonicalSelection, select_canonical}
use model_id.Dedup.Select.{IsOneOf}
use model_id.Dedup.Kept.{select_canonical-Keeping}
use model_id.Dedup.Linking.{cas_path_for_hash}
use model_id.Dedup.Execute.{
  DedupMode, only_reports, staging_path, staging_dir, run_group, run_or_report, execute_dedup_group,
}
use model_id.Dedup.Staged.{open_wal-Keeps, prepare-Holds, publish-Holds, selected-All}
use model_id.Dedup.Linked.{link_group-Keeps}
use model_id.Sys.{FilePath, file, World}
use model_id.Sys.Keeps.{Keeps, Keeps-pure, Keeps-bind, Keeps-gets, Holds, create_dir_all-Holds}
use model_id.Sys.Results.{Ends-bind, Keeps-Ends, Ends-after}

one-All :
    (P : FileInfo → Type 0) (c : FileInfo) (files : List FileInfo)
    → IsOneOf c files
    → All P files
    → P c
one-All P c [] i h = absurd i
one-All P c (f ∷ fs) (inl same) (h, hs) = subst P (sym same) h
one-All P c (f ∷ fs) (inr i) (h, hs) = one-All P c fs i hs

module _ (json : Tx.Serde) (paths_json : List Text → Option Text) (blake3 : Text → Blake3Hash)
    (device : FilePath → ℕ) (canonicalize : FilePath → Option FilePath)
    (capability : LinkCapability) (e : DedupEngine) (tx_id : Text) (group : DuplicateGroup)
    (q : FilePath) (t : Text) (not_staging : staging_path e group.hash ≢ q)
    (not_object : cas_path_for_hash e group.hash ≢ q) where
  run_or_report-Holds :
      (s : CanonicalSelection) (report : Bool)
      → All (λ p. p ≢ q) s.duplicates
      → s.canonical ≢ q
      → Keeps (Holds q t) (
          run_or_report e json paths_json blake3 device canonicalize capability tx_id group s
            report)
  unfolding run_group
  run_or_report-Holds s true ns n = Keeps-pure _
  run_or_report-Holds s false ns n = Keeps-bind _ _ (create_dir_all-Holds q t (staging_dir e)) λ _.
      Keeps-bind _ _
        (open_wal-Keeps json paths_json {P = λ fs. lookup q fs ≡ some (file t)} e tx_id group s)
        λ _. Keeps-bind _ _ (Keeps-gets _) λ there.
          Keeps-bind _ _
            (prepare-Holds blake3 e group q t not_staging not_object tx_id s.canonical there)
            λ _.
              Keeps-bind _ _
                (update_wal_status-Keeps {P = λ fs. lookup q fs ≡ some (file t)} tx_id Enums.copied)
                λ _.
                  Keeps-bind _ _ (publish-Holds blake3 e group q t not_staging not_object there)
                    λ _.
                      link_group-Keeps (λ n. n ≡ some (file t)) q blake3 device canonicalize
                        capability e tx_id group s ns (λ _. n)

module _ (json : Tx.Serde) (paths_json : List Text → Option Text) (blake3 : Text → Blake3Hash)
    (device : FilePath → ℕ) (canonicalize : FilePath → Option FilePath)
    (capability : LinkCapability) (e : DedupEngine) where
  -- `execute_dedup_group`, whatever calls fail, leaves a file as it was that is not one of the
  -- group, nor its object or its staging file.
  pub execute_dedup_group-Holds :
      (tx_id : Text) (group : DuplicateGroup) (mode : DedupMode) (q : FilePath) (t : Text)
      (w : World)
      → All (λ (f : FileInfo). f.path ≢ q) group.files
      → staging_path e group.hash ≢ q
      → cas_path_for_hash e group.hash ≢ q
      → lookup q w.fs ≡ some (file t)
      → lookup q
          (execute_dedup_group e json paths_json blake3 device canonicalize capability tx_id group
            mode w).1.fs
        ≡ some (file t)
  unfolding execute_dedup_group
  execute_dedup_group-Holds tx_id group mode q t w others not_staging not_object h =
      Ends-after
        (execute_dedup_group e json paths_json blake3 device canonicalize capability tx_id group
          mode w)
        (Ends-bind (select_canonical blake3 e group.files) _ w
          (select_canonical-Keeping blake3 e group.files w)
          (λ s v ((c, (one, same, _, _, duplicates), _), (fs, _)).
            Keeps-Ends _ v
              (run_or_report-Holds json paths_json blake3 device canonicalize capability e tx_id
                group q t not_staging not_object s (only_reports mode)
                (subst (All (λ p. p ≢ q)) (sym duplicates)
                  (selected-All q c.path group.files others))
                (λ k.
                  one-All (λ (f : FileInfo). f.path ≢ q) c group.files one others (sym same ∙ k)))
              (ap (lookup q) fs ∙ h))
          (λ v (fs, _). ap (lookup q) fs ∙ h))
