-- ===== src/Scanner/Digests.antt =====
-- What a scan of crates/modeld-core/src/scanner.rs returns.
use model_id.Db.PathIndex.{FileIndexEntry}
use model_id.Base.{
  ℕ, ◌⊎◌, inl, inr, not, ◌&&◌, ◌||◌, ◌==◌, ==_iff, ◌≡◌, refl, sym, ap, subst, ◌∙◌, Bool, true,
  false, Option, none, some, List, [], ◌∷◌, ◌++◌, map, All, if◌then◌else◌, list_eq, nat_eq, arith,
}
use model_id.Base.Text.{Text}
use model_id.Base.Dict.{lookup}
use model_id.Base.Results.{Result, ok, err, io_error}
use model_id.Hash.{Blake3Hash}
use model_id.Hash.Reading.{hash_file}
use model_id.Ingest.{ScannedFile}
use model_id.Sys.{FilePath, Fs, Node, file, dir, World, call, ◌>>=◌}
use model_id.Sys.Files.{metadata_len, read_to_string}
use model_id.Sys.Runs.{IsCalm}
use model_id.Sys.Returns.{Returns, Returns-pure, Returns-bind}
use model_id.Scanner.Scan.{
  FileScanner, Found, Entry, DirId, is_current, scanned, cached, use_incremental, hashed,
  hash_found, by_cache, scan_file, scan_files, to_process, filter_entry, scan,
}

-- The file but for where its hash is from.
abbrev pub forget : ScannedFile → ScannedFile
forget f = record f { from_cache = false }

module _ (blake3 : Text → Blake3Hash) where
  abbrev pub digest_of : Found → Option Node → List ScannedFile
  digest_of f none = []
  digest_of f (some dir) = []
  digest_of f (some (file t)) = scanned f (blake3 t) false ∷ []

  -- The files that can be read, each with the digest of its content.
  pub digests : List Found → Fs → List ScannedFile
  digests [] fs = []
  digests (f ∷ rest) fs = digest_of f (lookup f.path fs) ++ digests rest fs

  -- One of two values of the system is not known, or they are the same.
  abbrev pub Unchanged : ℕ → ℕ → Type 0
  Unchanged old new = (new ≡ 0) ⊎ ((old ≡ 0) ⊎ (old ≡ new))

  -- In an incremental scan that is not forced to be full, the row that the cache has for the path,
  -- if its size, its time and its inode are those of the file, has the hash of the file's content.
  abbrev pub IsAccurate : FileScanner → Fs → Found → Type 0
  IsAccurate s fs f =
      s.scan_options.incremental ≡ true
      → s.scan_options.full ≡ false
      → (entry : FileIndexEntry) → lookup f.path s.preindexed ≡ some entry
      → entry.size ≡ f.size
      → Unchanged entry.mtime f.mtime
      → (f.inode ≡ 0)
        ⊎ ((entry.inode ≡ 0) ⊎ ((entry.inode ≡ f.inode) × (entry.device_id ≡ f.device_id)))
      → (t : Text) × (lookup f.path fs ≡ some (file t)) × (blake3 t ≡ entry.hash)

  abbrev IsCached : FileScanner → Fs → Found → Type 0
  IsCached s fs f =
      (h : Blake3Hash)
      → cached s f ≡ some h
      → (t : Text) × (lookup f.path fs ≡ some (file t)) × (blake3 t ≡ h)

  incremental : (a b : Bool) → (a && not b) ≡ true → (a ≡ true) × (b ≡ false)
  incremental true false e = (refl, refl)
  incremental true true e = cc
  incremental false b e = cc

  -- The comparisons of the code are those of `IsAccurate`.
  accurate-IsCached :
      (s : FileScanner) (fs : Fs) (f : Found)
      → IsAccurate s fs f
      → use_incremental s ≡ true
      → IsCached s fs f
  accurate-IsCached s fs f right on = by_row (lookup f.path s.preindexed) refl
    where
      options : (s.scan_options.incremental ≡ true) × (s.scan_options.full ≡ false)
      options = incremental _ _ on

      known : (new old : ℕ) → (new == 0 || old == 0 || old == new) ≡ true → Unchanged old new
      known new old e = by_tests (new == 0) (old == 0) refl refl
        where
          by_tests : (a b : Bool) → (new == 0) ≡ a → (old == 0) ≡ b → Unchanged old new
          by_tests true b x y = inl ((==_iff new 0).0 x)
          by_tests false true x y = inr (inl ((==_iff old 0).0 y))
          by_tests false false x y = inr (inr ((==_iff old new).0 (ground (arith, e, x, y))))

      same_place :
          (entry : FileIndexEntry)
          → (f.inode == 0
              || entry.inode == 0
              || (entry.inode == f.inode && entry.device_id == f.device_id))
            ≡ true
          → (f.inode ≡ 0)
            ⊎ ((entry.inode ≡ 0) ⊎ ((entry.inode ≡ f.inode) × (entry.device_id ≡ f.device_id)))
      same_place entry e = by_tests (f.inode == 0) (entry.inode == 0) refl refl
        where
          by_tests :
              (a b : Bool)
              → (f.inode == 0) ≡ a
              → (entry.inode == 0) ≡ b
              → (f.inode ≡ 0)
                ⊎ ((entry.inode ≡ 0) ⊎ ((entry.inode ≡ f.inode) × (entry.device_id ≡ f.device_id)))
          by_tests true b x y = inl ((==_iff f.inode 0).0 x)
          by_tests false true x y = inr (inl ((==_iff entry.inode 0).0 y))
          by_tests false false x y = inr (
              inr (
                (==_iff entry.inode f.inode).0 (ground (arith, e, x, y)),
                (==_iff entry.device_id f.device_id).0 (ground (arith, e, x, y)),
              ))

      same_hash :
          (entry : FileIndexEntry) (h : Blake3Hash) → some entry.hash ≡ some h → entry.hash ≡ h
      same_hash entry h e = cc

      by_row :
          (o : Option FileIndexEntry)
          → lookup f.path s.preindexed ≡ o
          → (h : Blake3Hash)
          → elim o [
            | none ↦ none
            | some entry ↦ if is_current f entry then some entry.hash else none
          ]
            ≡ some h
          → (t : Text) × (lookup f.path fs ≡ some (file t)) × (blake3 t ≡ h)
      by_row none k h e = cc
      by_row (some entry) k h e = by_test (is_current f entry) refl e
        where
          three : (a b c : Bool) → (a && b && c) ≡ true → (a ≡ true) × (b ≡ true) × (c ≡ true)
          three a b c x = ground (arith, x)

          by_test :
              (b : Bool)
              → is_current f entry ≡ b
              → (if b then some entry.hash else none) ≡ some h
              → (t : Text) × (lookup f.path fs ≡ some (file t)) × (blake3 t ≡ h)
          by_test false current g = cc
          by_test true current g =
              let (size, time, place) = three _ _ _ current in
              let (t, there, same) =
                right options.0 options.1 entry k ((==_iff entry.size f.size).0 size)
                  (known f.mtime entry.mtime time) (same_place entry place) in
              (t, there, same ∙ same_hash entry h g)

  abbrev of_node : Option Node → Result Blake3Hash
  of_node none = err io_error
  of_node (some dir) = err io_error
  of_node (some (file t)) = ok (blake3 t)

  abbrev calmed : World → World
  calmed w = record w { faults = [] }

  hash_file-calm :
      (p : FilePath) (w : World)
      → IsCalm w
      → hash_file blake3 p w ≡ (of_node (lookup p w.fs), calmed w)
  unfolding hash_file metadata_len read_to_string call ◌>>=◌
  hash_file-calm p w c =
      ap (λ faults. hash_file blake3 p (record w { faults = faults })) c
      ∙ by_node (lookup p w.fs) refl
    where
      by_node :
          (n : Option Node)
          → lookup p w.fs ≡ n
          → hash_file blake3 p (calmed w) ≡ (of_node n, calmed w)
      by_node none e = ground (arith, e)
      by_node (some dir) e = ground (arith, e)
      by_node (some (file t)) e = ground (arith, e)

  hash_found-Returns :
      (f : Found) (w : World)
      → IsCalm w
      → Returns
          (λ rs v. (rs ≡ digest_of f (lookup f.path w.fs)) × (v.fs ≡ w.fs) × IsCalm v)
          (hash_found blake3 f w)
  unfolding ◌>>=◌
  hash_found-Returns f w c = rw (hash_file-calm f.path w c) (record {
    value = hashed f (of_node (lookup f.path w.fs));
    is_ok = refl;
    good = (by_node (lookup f.path w.fs), refl, refl);
  })
    where
      by_node : (n : Option Node) → hashed f (of_node n) ≡ digest_of f n
      by_node none = refl
      by_node (some dir) = refl
      by_node (some (file t)) = refl

  hash_found-forget :
      (f : Found) (w : World)
      → IsCalm w
      → Returns
          (λ rs v. (map forget rs ≡ digest_of f (lookup f.path w.fs)) × (v.fs ≡ w.fs) × IsCalm v)
          (hash_found blake3 f w)
  hash_found-forget f w c =
      let r = hash_found-Returns f w c in
      record {
        value = r.value;
        is_ok = r.is_ok;
        good = (ap (map forget) r.good.0 ∙ by_node (lookup f.path w.fs), r.good.1, r.good.2);
      }
    where
      by_node : (n : Option Node) → map forget (digest_of f n) ≡ digest_of f n
      by_node none = refl
      by_node (some dir) = refl
      by_node (some (file t)) = refl

  by_cache-Returns :
      (s : FileScanner) (f : Found) (o : Option Blake3Hash) (w : World)
      → cached s f ≡ o
      → IsCached s w.fs f
      → IsCalm w
      → Returns
          (λ rs v. (map forget rs ≡ digest_of f (lookup f.path w.fs)) × (v.fs ≡ w.fs) × IsCalm v)
          (by_cache blake3 f o w)
  by_cache-Returns s f none w e right c = hash_found-forget f w c
  by_cache-Returns s f (some h) w e right c =
      let (t, there, same) = right h e in
      Returns-pure (scanned f h true ∷ []) w (rw (there, same) refl, refl, c)

  scan_file-Returns :
      (s : FileScanner) (f : Found) (w : World)
      → IsAccurate s w.fs f
      → IsCalm w
      → Returns
          (λ rs v. (map forget rs ≡ digest_of f (lookup f.path w.fs)) × (v.fs ≡ w.fs) × IsCalm v)
          (scan_file blake3 s f w)
  scan_file-Returns s f w right c = by_test (use_incremental s) refl
    where
      by_test :
          (b : Bool)
          → use_incremental s ≡ b
          → Returns
              (λ rs v.
                (map forget rs ≡ digest_of f (lookup f.path w.fs)) × (v.fs ≡ w.fs) × IsCalm v)
              ((if b then by_cache blake3 f (cached s f) else hash_found blake3 f) w)
      by_test true on =
          by_cache-Returns s f (cached s f) w refl (accurate-IsCached s w.fs f right on) c
      by_test false on = hash_found-forget f w c

  map-forget-append :
      (xs ys : List ScannedFile) → map forget (xs ++ ys) ≡ map forget xs ++ map forget ys
  map-forget-append [] ys = refl
  map-forget-append (x ∷ xs) ys = ap (λ zs. forget x ∷ zs) (map-forget-append xs ys)

  scan_files-Returns :
      (s : FileScanner) (fs : List Found) (w : World)
      → All (IsAccurate s w.fs) fs
      → IsCalm w
      → Returns (λ rs v. map forget rs ≡ digests fs w.fs) (scan_files blake3 s fs w)
  unfolding scan_files digests
  scan_files-Returns s [] w _ c = Returns-pure [] w refl
  scan_files-Returns s (f ∷ fs) w (right, rest) c =
      Returns-bind _ _ w (scan_file-Returns s f w right c) (λ rs v (e, same, calm).
        Returns-bind _ _ v
          (scan_files-Returns s fs v (subst (λ x. All (IsAccurate s x) fs) (sym same) rest) calm)
          (λ more u g. Returns-pure (rs ++ more) u (
            map-forget-append rs more
            ∙ ap (λ xs. xs ++ map forget more) e
            ∙ ap (λ xs. digest_of f (lookup f.path w.fs) ++ xs) (g ∙ ap (digests fs) same))))

  -- If no call fails, and what the cache has is accurate, a scan, incremental or full, returns the files that the walk selects and that can be read, each with the
  -- digest of its content.
  pub scan-digests :
      (walk : (List DirId → Entry → Bool × List DirId) → List (Option Entry)) (s : FileScanner)
      (w : World)
      → IsCalm w
      → All (IsAccurate s w.fs) (to_process s (walk (filter_entry s)))
      → Returns
          (λ rs _. map forget rs ≡ digests (to_process s (walk (filter_entry s))) w.fs)
          (scan blake3 walk s w)
  unfolding scan
  scan-digests walk s w c right =
      scan_files-Returns s (to_process s (walk (filter_entry s))) w right c
