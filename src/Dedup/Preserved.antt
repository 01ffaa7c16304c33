-- ===== src/Dedup/Preserved.antt =====
-- What `execute_dedup_group` (crates/modeld-core/src/dedup.rs) leaves of a file, whatever calls fail.
use model_id.Base.{
  ℕ, ◌≡◌, ◌≢◌, ◌⊎◌, inl, inr, refl, sym, ap, subst, ◌∙◌, Bool, true, false, Option, none, some,
  List, arith, All, list_eq, nat_eq, ◌==◌, ==_iff,
}
use model_id.Base.Text.{Text}
use model_id.Base.Dict.{lookup}
use model_id.Hash.{Blake3Hash}
use model_id.Db.Enums
use model_id.Tx
use model_id.Tx.{update_wal_status, update_wal_extended, commit, fail}
use model_id.Tx.Rollback.{update_wal_status-Keeps}
use model_id.Links.{LinkCapability}
use model_id.Dedup.{FileInfo, DedupEngine, DuplicateGroup, CanonicalSelection, select_canonical}
use model_id.Dedup.Kept.{select_canonical-Keeping}
use model_id.Dedup.Linking.{cas_path_for_hash, link_group}
use model_id.Dedup.Execute.{
  DedupMode, only_reports, staging_dir, staging_path, open_wal, prepare, publish, run_group,
  run_or_report, execute_dedup_group,
}
use model_id.Sys.{FilePath, Fs, file, World, pure, gets, ◌>>=◌}
use model_id.Sys.Files.{exists, create_dir_all}
use model_id.Sys.Keeps.{Keeps-pure, Keeps-and, Holds, create_dir_all-Holds}
use model_id.Sys.Results.{
  Ends, Ends-pure, Ends-bind, Ends-mono, Ends-and, Keeps-then, Keeps-Ends, gets-Ends,
}
use model_id.Sys.Walk.{create_dir_all-Keeps}
use model_id.Dedup.Staged.{
  IsObject, open_wal-Keeps, prepare-Ends, publish-Ends, prepare-Holds, publish-Holds,
  staging_dir-shorter, selected-All,
}
use model_id.Dedup.Linked.{link_group-Keeps}

-- What a run leaves of a file: all of it, or the object.
abbrev pub IsSafe : (Text → Blake3Hash) → Blake3Hash → FilePath → FilePath → Text → World → Type 0
IsSafe blake3 hash cas_path q t v =
    Holds q t v.fs v.db ⊎ IsObject blake3 hash (lookup cas_path v.fs)

-- What it has done when it returns: a report changes no file, and else the object is there.
abbrev pub IsDone :
    (Text → Blake3Hash) → Blake3Hash → FilePath → FilePath → Text → Bool → World → Type 0
IsDone blake3 hash cas_path q t true v = Holds q t v.fs v.db
IsDone blake3 hash cas_path q t false v = IsObject blake3 hash (lookup cas_path v.fs)

-- The file is there, and the object, if there is one, has the hash.
abbrev IsReady : (Text → Blake3Hash) → Blake3Hash → FilePath → FilePath → Text → Fs → Type 0
IsReady blake3 hash cas_path q t fs =
    (lookup q fs ≡ some (file t))
    × ((lookup cas_path fs ≡ none) ⊎ IsObject blake3 hash (lookup cas_path fs))

module _ (json : Tx.Serde) (paths_json : List Text → Option Text) (blake3 : Text → Blake3Hash)
    (device : FilePath → ℕ) (canonicalize : FilePath → Option FilePath)
    (capability : LinkCapability) (e : DedupEngine) (tx_id : Text) (group : DuplicateGroup)
    (s : CanonicalSelection)
    (others : All (λ p. p ≢ cas_path_for_hash e group.hash) s.duplicates) where
  module _ (q : FilePath) (t : Text) (not_staging : staging_path e group.hash ≢ q)
      (not_object : cas_path_for_hash e group.hash ≢ q) where
    linked-Ends :
        (w : World)
        → IsObject blake3 group.hash (lookup (cas_path_for_hash e group.hash) w.fs)
        → Ends
            (λ _ v. IsObject blake3 group.hash (lookup (cas_path_for_hash e group.hash) v.fs))
            (IsSafe blake3 group.hash (cas_path_for_hash e group.hash) q t)
            (link_group e blake3 device canonicalize capability tx_id group s w)
    linked-Ends w h =
        Ends-mono
          (Keeps-Ends _ w
            (link_group-Keeps (IsObject blake3 group.hash) (cas_path_for_hash e group.hash) blake3
              device canonicalize capability e tx_id group s others apart)
            h)
          (λ _ v k. k) (λ v k. inr k)
      where
        apart :
            s.canonical == cas_path_for_hash e group.hash ≡ false
            → s.canonical ≢ cas_path_for_hash e group.hash
        apart n same = ground (arith, n, ==_iff s.canonical (cas_path_for_hash e group.hash), same)

    stored-Ends :
        (there : Bool) (w : World)
        → Holds q t w.fs w.db
        → (there ≡ true → IsObject blake3 group.hash (lookup (cas_path_for_hash e group.hash) w.fs))
        → Ends
            (λ _ v. IsObject blake3 group.hash (lookup (cas_path_for_hash e group.hash) v.fs))
            (IsSafe blake3 group.hash (cas_path_for_hash e group.hash) q t)
            ((prepare e blake3 tx_id group s.canonical there >>= λ _.
                update_wal_status tx_id Enums.copied >>= λ _. publish e group there >>= λ _.
                link_group e blake3 device canonicalize capability tx_id group s)
              w)
    unfolding prepare publish
    stored-Ends true w h k =
        Keeps-then (pure tt) _ w (Keeps-pure tt) (k refl)
          (λ _ v o.
            Keeps-then (update_wal_status tx_id Enums.copied) _ v
              (update_wal_status-Keeps
                {P = λ fs. IsObject blake3 group.hash (lookup (cas_path_for_hash e group.hash) fs)}
                tx_id Enums.copied)
              o
              (λ _ u o2.
                Keeps-then (pure tt) _ u (Keeps-pure tt) o2 (λ _ x o3. linked-Ends x o3)
                  (λ x o3. inr o3))
              (λ u o2. inr o2))
          (λ v o. inr o)
    stored-Ends false w h k =
        Ends-bind (prepare e blake3 tx_id group s.canonical false) _ w
          (Ends-and _ w (prepare-Ends blake3 e group tx_id s.canonical w)
            (prepare-Holds blake3 e group q t not_staging not_object tx_id s.canonical false) h)
          (λ _ v (staged, h1).
            Keeps-then (update_wal_status tx_id Enums.copied) _ v
              (update_wal_status-Keeps
                {P = λ fs.
                  IsObject blake3 group.hash (lookup (staging_path e group.hash) fs)
                  × (lookup q fs ≡ some (file t))}
                tx_id Enums.copied)
              (staged, h1)
              (λ _ u (staged2, h2).
                Ends-bind (publish e group false) _ u
                  (Ends-and _ u (publish-Ends blake3 e group u staged2)
                    (publish-Holds blake3 e group q t not_staging not_object false) h2)
                  (λ _ x (o, _). linked-Ends x o) (λ x (_, h3). inl h3))
              (λ u (_, h2). inl h2))
          (λ v (_, h1). inl h1)

    run_group-Ends :
        (w : World)
        → IsReady blake3 group.hash (cas_path_for_hash e group.hash) q t w.fs
        → Ends
            (λ _ v. IsObject blake3 group.hash (lookup (cas_path_for_hash e group.hash) v.fs))
            (IsSafe blake3 group.hash (cas_path_for_hash e group.hash) q t)
            (run_group e json paths_json blake3 device canonicalize capability tx_id group s w)
    unfolding run_group
    run_group-Ends w h =
        Keeps-then (create_dir_all (staging_dir e)) _ w
          (Keeps-and (create_dir_all-Holds q t (staging_dir e)) (
            create_dir_all-Keeps (λ n. (n ≡ none) ⊎ IsObject blake3 group.hash n) (staging_dir e)
              (cas_path_for_hash e group.hash) (staging_dir-shorter e group.hash)))
          h
          (λ _ v h1.
            Keeps-then (open_wal e json paths_json tx_id group s) _ v
              (open_wal-Keeps json paths_json
                {P = IsReady blake3 group.hash (cas_path_for_hash e group.hash) q t} e tx_id group
                s)
              h1
              (λ _ u (h2, o).
                Ends-bind (gets (exists (cas_path_for_hash e group.hash))) _ u
                  (gets-Ends (exists (cas_path_for_hash e group.hash)) u)
                  (λ there x (is, same).
                    stored-Ends there x (subst (λ (y : World). Holds q t y.fs y.db) (sym same) h2)
                      λ present.
                        subst
                          (λ (y : World).
                            IsObject blake3 group.hash
                              (lookup (cas_path_for_hash e group.hash) y.fs))
                          (sym same) (found u o (sym (is ∙ ap (exists _) same) ∙ present)))
                  (λ x f. f))
              (λ u (h2, _). inl h2))
          (λ v (h1, _). inl h1)
      where
        found :
            (u : World)
            → (lookup (cas_path_for_hash e group.hash) u.fs ≡ none)
              ⊎ IsObject blake3 group.hash (lookup (cas_path_for_hash e group.hash) u.fs)
            → exists (cas_path_for_hash e group.hash) u ≡ true
            → IsObject blake3 group.hash (lookup (cas_path_for_hash e group.hash) u.fs)
        found u (inr o) present = o
        found u (inl n) present = ground (arith, n, present)

module _ (json : Tx.Serde) (paths_json : List Text → Option Text) (blake3 : Text → Blake3Hash)
    (device : FilePath → ℕ) (canonicalize : FilePath → Option FilePath)
    (capability : LinkCapability) (e : DedupEngine) where
  -- `execute_dedup_group` of a group none of whose files is the object itself, whatever calls fail,
  -- in a store whose object, if it is there, has the hash: of a file `q` other than the staging
  -- file and the object, be it one of the group or not, a report leaves all; any other run that
  -- returns leaves an object whose content has the hash; and a run that fails leaves such an object
  -- or the file as it was.
  pub execute_dedup_group-IsDone :
      (tx_id : Text) (group : DuplicateGroup) (mode : DedupMode) (q : FilePath) (t : Text)
      (w : World)
      → All (λ (f : FileInfo). f.path ≢ cas_path_for_hash e group.hash) group.files
      → staging_path e group.hash ≢ q
      → cas_path_for_hash e group.hash ≢ q
      → Holds q t w.fs w.db
      → (lookup (cas_path_for_hash e group.hash) w.fs ≡ none)
        ⊎ IsObject blake3 group.hash (lookup (cas_path_for_hash e group.hash) w.fs)
      → Ends
          (λ _. IsDone blake3 group.hash (cas_path_for_hash e group.hash) q t (only_reports mode))
          (IsSafe blake3 group.hash (cas_path_for_hash e group.hash) q t)
          (execute_dedup_group e json paths_json blake3 device canonicalize capability tx_id group
            mode w)
  unfolding execute_dedup_group
  execute_dedup_group-IsDone tx_id group mode q t w others not_staging not_object h o =
      Ends-bind (select_canonical blake3 e group.files) _ w
        (select_canonical-Keeping blake3 e group.files w)
        (λ s v ((c, (_, _, _, _, duplicates), _), (fs, _)).
          by_mode (only_reports mode) s v
            (subst (All (λ p. p ≢ cas_path_for_hash e group.hash)) (sym duplicates)
              (selected-All (cas_path_for_hash e group.hash) c.path group.files others))
            (subst (IsReady blake3 group.hash (cas_path_for_hash e group.hash) q t) (sym fs)
              (h, o)))
        (λ v (fs, _). inl (ap (lookup q) fs ∙ h))
    where
      by_mode :
          (b : Bool) (s : CanonicalSelection) (v : World)
          (apart : All (λ p. p ≢ cas_path_for_hash e group.hash) s.duplicates)
          → IsReady blake3 group.hash (cas_path_for_hash e group.hash) q t v.fs
          → Ends
              (λ _. IsDone blake3 group.hash (cas_path_for_hash e group.hash) q t b)
              (IsSafe blake3 group.hash (cas_path_for_hash e group.hash) q t)
              (run_or_report e json paths_json blake3 device canonicalize capability tx_id group s b
                v)
      by_mode true s v apart (h, o) = Ends-pure _ v h
      by_mode false s v apart ready =
          run_group-Ends json paths_json blake3 device canonicalize capability e tx_id group s apart
            q t not_staging not_object v ready
