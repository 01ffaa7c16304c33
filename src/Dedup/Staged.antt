-- ===== src/Dedup/Staged.antt =====
-- Phase A of `execute_dedup_group` (crates/modeld-core/src/dedup.rs) and the move of the object to its
-- place, whatever calls fail.
use model_id.Base.{
  ◌<◌, ◌≡◌, ◌≢◌, refl, sym, ap, ◌∙◌, Bool, true, false, not, Option, none, some, List, [], ◌∷◌,
  ◌++◌, map, select, arith, length, length-append, All, list_eq, nat_eq, ◌==◌, ==_iff,
}
use model_id.Base.Text.{Text, codes}
use model_id.Base.Dict.{lookup}
use model_id.Base.Results.{hash_mismatch}
use model_id.Hash.{Blake3Hash, as_hex, prefix}
use model_id.Hash.Reading.{hash_file}
use model_id.Db.Enums
use model_id.Cas
use model_id.Cas.{make_parent, promote, touch}
use model_id.Cas.Stored.{make_parent-Holds, touch-Keeps, promote-Holds, promote-Ends}
use model_id.Tx
use model_id.Tx.{update_wal_status, update_wal_extended, commit, fail}
use model_id.Tx.Rollback.{update_wal_extended-Keeps, finish-Keeps}
use model_id.Dedup.{FileInfo, DedupEngine, DuplicateGroup, CanonicalSelection}
use model_id.Dedup.Pinned.{hash_file-Ends}
use model_id.Dedup.Linking.{cas_path_for_hash}
use model_id.Dedup.Execute.{checked, staging_dir, staging_path, open_wal, prepare, publish}
use model_id.Fsck.Reads.{hash_file-Keeps}
use model_id.Sys.{FilePath, Fs, Node, file, World, try}
use model_id.Sys.Files.{parent, join, file_name, file_name-join, copy, remove_file}
use model_id.Sys.Keeps.{
  Keeps, Keeps-pure, Keeps-throw, Keeps-bind, Keeps-try, Keeps-now, Holds, copy-Holds,
  remove_file-Holds,
}
use model_id.Sys.Results.{Ends, Ends-pure, Ends-throw, Ends-bind, Keeps-then, any_end}
use model_id.Sys.Apart.{attempt-Keeps_files}

-- The object is there, and its content has the hash.
abbrev pub IsObject : (Text → Blake3Hash) → Blake3Hash → Option Node → Type 0
IsObject blake3 hash n = (t : Text) × (n ≡ some (file t)) × (as_hex (blake3 t) ≡ as_hex hash)

pub staging-apart :
    (e : DedupEngine) (hash : Blake3Hash) → staging_path e hash ≢ cas_path_for_hash e hash
unfolding as_hex
staging-apart e hash p = omega (
  arith,
  ap length (
      sym (file_name-join (staging_dir e) (hash.hex ++ codes ".tmp"))
      ∙ ap file_name p
      ∙ file_name-join _ hash.hex),
  length-append hash.hex (codes ".tmp"),
)

module _ (json : Tx.Serde) (paths_json : List Text → Option Text) where
  pub open_wal-Keeps :
      {P : Fs → Type 0} (e : DedupEngine) (tx_id : Text) (group : DuplicateGroup)
      (s : CanonicalSelection)
      → Keeps (λ fs _. P fs) (open_wal e json paths_json tx_id group s)
  unfolding open_wal
  open_wal-Keeps {P} e tx_id group s = Keeps-bind _ _ Keeps-now λ at.
      Keeps-bind _ _ (attempt-Keeps_files {P = P} _)
        λ _. update_wal_extended-Keeps {P = P} tx_id _ _ _ none none

module _ (blake3 : Text → Blake3Hash) (e : DedupEngine) (group : DuplicateGroup) where
  -- A staging file that is there after phase A has the hash.
  pub prepare-Ends :
      (tx_id : Text) (canonical : FilePath) (w : World)
      → Ends
          (λ _ v. IsObject blake3 group.hash (lookup (staging_path e group.hash) v.fs))
          (λ _. Unit {0})
          (prepare e blake3 tx_id group canonical false w)
  unfolding prepare
  prepare-Ends tx_id canonical w =
      Ends-bind (copy canonical (staging_path e group.hash)) _ w
        (any_end (copy canonical (staging_path e group.hash)) w)
        (λ _ v _.
          Ends-bind (hash_file blake3 (staging_path e group.hash)) _ v
            (hash_file-Ends blake3 (staging_path e group.hash) v v (refl, refl))
            (λ staged u ((s, at, same), (fs, _)).
              by_test (as_hex staged == as_hex group.hash) u s staged
                (ap (lookup (staging_path e group.hash)) fs ∙ at) same refl)
            (λ u _. tt))
        (λ v _. tt)
    where
      by_test :
          (b : Bool) (u : World) (s : Text) (staged : Blake3Hash)
          → lookup (staging_path e group.hash) u.fs ≡ some (file s)
          → staged ≡ blake3 s
          → (as_hex staged == as_hex group.hash) ≡ b
          → Ends
              (λ _ v. IsObject blake3 group.hash (lookup (staging_path e group.hash) v.fs))
              (λ _. Unit {0})
              (checked tx_id (staging_path e group.hash) b u)
      by_test true u s staged at same agrees =
          Ends-pure tt u
            (s, at, ap as_hex (sym same) ∙ (==_iff (as_hex staged) (as_hex group.hash)).0 agrees)
      by_test false u s staged at same agrees =
          Ends-bind (try (remove_file (staging_path e group.hash))) _ u
            (any_end (try (remove_file (staging_path e group.hash))) u)
            (λ _ x _.
              Ends-bind (try (fail tx_id (codes "Hash mismatch during staging"))) _ x
                (any_end (try (fail tx_id (codes "Hash mismatch during staging"))) x)
                (λ _ y _. Ends-throw hash_mismatch y tt) (λ y _. tt))
            (λ x _. tt)

  pub publish-Ends :
      (w : World)
      → IsObject blake3 group.hash (lookup (staging_path e group.hash) w.fs)
      → Ends
          (λ _ v. IsObject blake3 group.hash (lookup (cas_path_for_hash e group.hash) v.fs))
          (λ _. Unit {0})
          (publish e group false w)
  unfolding publish
  publish-Ends w (s, at, agrees) =
      Keeps-then (make_parent (parent (cas_path_for_hash e group.hash))) _ w
        (make_parent-Holds (staging_path e group.hash) s _) at
        (λ _ v h.
          Ends-bind
            (promote (Cas.new e.store_path) (staging_path e group.hash)
              (cas_path_for_hash e group.hash))
            _ v (promote-Ends (Cas.new e.store_path) _ _ s v (staging-apart e group.hash) h)
            (λ _ u d.
              Keeps-then (try (touch (cas_path_for_hash e group.hash))) _ u
                (Keeps-try _ (touch-Keeps {P = Holds (cas_path_for_hash e group.hash) s} _)) d
                (λ _ x k. Ends-pure tt x (s, k, agrees)) (λ x _. tt))
            (λ u _. tt))
        (λ v _. tt)

  module _ (q : FilePath) (t : Text) (not_staging : staging_path e group.hash ≢ q)
      (not_object : cas_path_for_hash e group.hash ≢ q) where
    pub prepare-Holds :
        (tx_id : Text) (canonical : FilePath) (there : Bool)
        → Keeps (Holds q t) (prepare e blake3 tx_id group canonical there)
    unfolding prepare fail
    prepare-Holds tx_id canonical true = Keeps-pure tt
    prepare-Holds tx_id canonical false =
        Keeps-bind _ _ (copy-Holds q t canonical (staging_path e group.hash) not_staging) λ _.
          Keeps-bind _ _ (hash_file-Keeps {P = Holds q t} blake3 (staging_path e group.hash))
            λ staged. by_test (as_hex staged == as_hex group.hash)
      where
        by_test : (b : Bool) → Keeps (Holds q t) (checked tx_id (staging_path e group.hash) b)
        by_test true = Keeps-pure tt
        by_test false =
            Keeps-bind _ _
              (Keeps-try _ (remove_file-Holds q t (staging_path e group.hash) not_staging))
              λ _.
                Keeps-bind _ _
                  (Keeps-try _ (
                    finish-Keeps {P = λ fs. lookup q fs ≡ some (file t)} tx_id Enums.failed
                      (some (codes "Hash mismatch during staging"))))
                  λ _. Keeps-throw hash_mismatch

    pub publish-Holds : (there : Bool) → Keeps (Holds q t) (publish e group there)
    unfolding publish
    publish-Holds true = Keeps-pure tt
    publish-Holds false = Keeps-bind _ _ (make_parent-Holds q t _) λ _.
        Keeps-bind _ _ (promote-Holds (Cas.new e.store_path) _ _ q t not_staging not_object)
          λ _. Keeps-bind _ _ (Keeps-try _ (touch-Keeps {P = Holds q t} _)) λ _. Keeps-pure tt

-- The object is longer than the staging directory.
pub staging_dir-shorter :
    (e : DedupEngine) (hash : Blake3Hash)
    → length (staging_dir e) < length (cas_path_for_hash e hash)
staging_dir-shorter e hash = omega (
  arith,
  length-append (join e.store_path (codes "tmp")) (codes "cas_staging" ∷ []),
  length-append e.store_path (codes "tmp" ∷ []),
  length-append (join (join (join e.store_path (codes "cas")) (codes "blake3")) (prefix hash))
      (as_hex hash ∷ []),
  length-append (join (join e.store_path (codes "cas")) (codes "blake3")) (prefix hash ∷ []),
  length-append (join e.store_path (codes "cas")) (codes "blake3" ∷ []),
  length-append e.store_path (codes "cas" ∷ []),
)

pub selected-All :
    (q c : FilePath) (files : List FileInfo)
    → All (λ (f : FileInfo). f.path ≢ q) files
    → All
        (λ p. p ≢ q)
        (map (λ (f : FileInfo). f.path) (select (λ (f : FileInfo). not (f.path == c)) files))
selected-All q c [] h = tt
selected-All q c (f ∷ fs) h = ground (arith, selected-All q c fs)
