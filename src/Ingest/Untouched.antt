-- ===== src/Ingest/Untouched.antt =====
-- What `ingest_scan_results` (crates/modeld-core/src/ingest.rs) does to the files of the user.
use model_id.Base.{◌≡◌, ◌≢◌, Bool, true, false, some, List, [], ◌∷◌, All, list_eq, nat_eq, ◌==◌}
use model_id.Base.Text.{Text}
use model_id.Base.Dict.{lookup}
use model_id.Base.Results.{Error, size_mismatch}
use model_id.Hash.{Blake3Hash}
use model_id.Cas
use model_id.Cas.{
  CasStore, contains, path_for_hash, staging_dir, staging_path, reuse, publish, checked, stage,
  store_crash_safe,
}
use model_id.Cas.Stored.{make_parent-Holds, make_touch-Keeps, touch-Keeps, promote-Holds}
use model_id.Fsck.Reads.{hash_file-Keeps}
use model_id.Ingest.{
  ScannedFile, IngestResult, agrees, is_missing, tally, verify, add_alias, record_file, ingest_file,
  ingest_all, no_result, ingest_scan_results,
}
use model_id.Sys.{FilePath, Fs, M, World, file}
use model_id.Sys.Apart.{
  len-Keeps, read-Keeps, query-Keeps, execute-Keeps_files, attempt-Keeps_files,
}
use model_id.Sys.Keeps.{
  Keeps, Keeps-pure, Keeps-throw, Keeps-bind, Keeps-gets, Keeps-try, Keeps-if, Keeps-now, Holds,
  create_dir_all-Holds, write-Holds, remove_file-Holds,
}

-- The store writes neither the object of the scanned file nor its staging file at the path.
abbrev pub IsApart : FilePath → Text → FilePath → ScannedFile → Type 0
IsApart store_path scan_id q f =
    (staging_path (Cas.new store_path) f.hash scan_id ≢ q)
    × (path_for_hash (Cas.new store_path) f.hash ≢ q)

-- Checks and rows write no file.
module _ {P : Fs → Type 0} (blake3 : Text → Blake3Hash) (store_path : FilePath) (scan_id : Text)
    (f : ScannedFile) where
  agrees-Keeps : (b : Bool) → Keeps (λ fs _. P fs) (agrees b)
  agrees-Keeps true = Keeps-pure tt
  agrees-Keeps false = Keeps-throw _

  pub verify-Keeps : Keeps (λ fs _. P fs) (verify blake3 store_path scan_id f)
  verify-Keeps =
      Keeps-if f.from_cache _ _ (λ _. Keeps-pure tt)
        (λ _. Keeps-bind _ _ (hash_file-Keeps blake3 f.path) λ actual. agrees-Keeps _)

  add_alias-Keeps : (b : Bool) → Keeps (λ fs _. P fs) (add_alias blake3 store_path scan_id f b)
  add_alias-Keeps b =
      Keeps-if b _ _
        (λ _.
          Keeps-bind _ _ Keeps-now
            λ at. Keeps-bind _ _ (Keeps-try _ (attempt-Keeps_files {P = P} _)) λ _. Keeps-pure tt)
        (λ _. Keeps-pure tt)

  pub record_file-Keeps : Keeps (λ fs _. P fs) (record_file blake3 store_path scan_id f)
  record_file-Keeps = Keeps-bind _ _ Keeps-now λ at.
      Keeps-bind _ _ (execute-Keeps_files {P = P} _) λ _.
        Keeps-bind _ _ (Keeps-try _ (query-Keeps _)) λ found.
          Keeps-bind _ _ (add_alias-Keeps (is_missing found))
            λ _. Keeps-bind _ _ Keeps-now λ again. attempt-Keeps_files {P = P} _

module _ (blake3 : Text → Blake3Hash) (q : FilePath) (t : Text) where
  module _ (cas : CasStore) (source : FilePath) (hash : Blake3Hash) (tx_id : Text)
      (not_staging : staging_path cas hash tx_id ≢ q)
      (not_object : path_for_hash cas hash ≢ q) where
    checked-Holds :
        (b : Bool) (e : Error) (next : M FilePath)
        → Keeps (Holds q t) next
        → Keeps
            (Holds q t)
            (checked cas (staging_path cas hash tx_id) (path_for_hash cas hash) b e next)
    checked-Holds b e next h =
        Keeps-if b _ _ (λ _. h)
          (λ _.
            Keeps-bind _ _ (Keeps-try _ (remove_file-Holds q t _ not_staging)) λ _. Keeps-throw e)

    publish-Holds :
        Keeps (Holds q t) (publish cas (staging_path cas hash tx_id) (path_for_hash cas hash))
    publish-Holds = Keeps-bind _ _ (make_parent-Holds q t _) λ _.
        Keeps-bind _ _ (promote-Holds cas _ _ q t not_staging not_object) λ _.
          Keeps-bind _ _ (make_touch-Keeps _) λ _. Keeps-bind _ _ (touch-Keeps _) λ _. Keeps-pure _

    reuse-Holds : Keeps (Holds q t) (reuse cas (path_for_hash cas hash) source)
    reuse-Holds = Keeps-bind _ _ (len-Keeps _) λ n. Keeps-bind _ _ (len-Keeps _) λ m.
        Keeps-if (n == m) _ _ (λ _. Keeps-pure (path_for_hash cas hash))
          (λ _. Keeps-throw size_mismatch)

    store_crash_safe-Holds : Keeps (Holds q t) (store_crash_safe cas blake3 source hash tx_id)
    unfolding store_crash_safe
    store_crash_safe-Holds = Keeps-bind _ _ (Keeps-gets _) λ there.
        Keeps-if there _ _ (λ _. reuse-Holds)
          λ _. Keeps-bind _ _ (create_dir_all-Holds q t _) λ _. Keeps-bind _ _ (len-Keeps _) λ size.
            Keeps-bind _ _ (read-Keeps _) λ content.
              Keeps-bind _ _ (write-Holds q t _ content not_staging)
                λ _. checked-Holds _ _ _ (checked-Holds _ _ _ publish-Holds)

  module _ (store_path : FilePath) (scan_id : Text) where
    ingest_file-Holds :
        (f : ScannedFile)
        → IsApart store_path scan_id q f
        → Keeps (Holds q t) (ingest_file blake3 store_path scan_id f)
    unfolding ingest_file
    ingest_file-Holds f (not_staging, not_object) =
        Keeps-bind _ _
          (verify-Keeps {P = λ fs. lookup q fs ≡ some (file t)} blake3 store_path scan_id f)
          λ _.
            Keeps-bind _ _
              (store_crash_safe-Holds (Cas.new store_path) f.path f.hash scan_id not_staging
                not_object)
              λ p.
                record_file-Keeps {P = λ fs. lookup q fs ≡ some (file t)} blake3 store_path scan_id
                  f

    ingest_all-Holds :
        (r : IngestResult) (files : List ScannedFile)
        → All (IsApart store_path scan_id q) files
        → Keeps (Holds q t) (ingest_all blake3 store_path scan_id r files)
    unfolding ingest_all
    ingest_all-Holds r [] apart = Keeps-pure r
    ingest_all-Holds r (f ∷ files) (apart, others) =
        Keeps-bind _ _ (Keeps-try _ (ingest_file-Holds f apart))
          λ done. ingest_all-Holds (tally f r done) files others

-- An ingest, whatever calls fail, leaves each file as it was, also those it ingests, that is neither
-- the object nor the staging file of one of the ingested hashes.
pub ingest_scan_results-Holds :
    (blake3 : Text → Blake3Hash) (store_path : FilePath) (scan_id : Text) (files : List ScannedFile)
    (q : FilePath) (t : Text) (w : World)
    → All (IsApart store_path scan_id q) files
    → lookup q w.fs ≡ some (file t)
    → lookup q (ingest_scan_results blake3 store_path scan_id files w).1.fs ≡ some (file t)
unfolding ingest_scan_results
ingest_scan_results-Holds blake3 store_path scan_id files q t w apart h =
    (ingest_all-Holds blake3 q t store_path scan_id no_result files apart).at w h
