-- ===== src/Cas/Stored.antt =====
-- What `store_crash_safe` (crates/modeld-core/src/cas.rs) comes to, whatever calls fail.
use model_id.Base.{
  ℕ, ◌≡◌, ◌≢◌, refl, sym, ap, subst, ◌∙◌, Bool, true, false, Option, none, some, ◌++◌, arith,
  length, length-append, list_eq, nat_eq, ◌==◌, ==_iff,
}
use model_id.Base.Text.{Text, codes}
use model_id.Base.Dict.{lookup}
use model_id.Base.Results.{Result, ok, err, Error, size_mismatch, hash_mismatch}
use model_id.Hash.{Blake3Hash, as_hex}
use model_id.Db.{Database}
use model_id.Sys.{FilePath, Fs, World, file, M, gets, try, ◌>>◌}
use model_id.Sys.Files.{
  parent, file_name, file_name-join, create_dir_all, metadata_len, read_to_string, write, copy,
  rename, remove_file,
}
use model_id.Sys.Apart.{len-Keeps, read-Keeps, tried-Ends}
use model_id.Sys.Keeps.{
  Keeps, Keeps-pure, Keeps-bind, Keeps-try, Keeps-and, Holds, create_dir_all-Holds, write-Holds,
  copy-Holds, rename-Holds, remove_file-Holds,
}
use model_id.Sys.Results.{
  Ends, Ends-pure, Ends-throw, Ends-bind, Ends-mono, Ends-and, Keeps-then, Keeps-Ends, copy-Ends,
  rename-Ends, write-Ends, read_to_string-Ends, gets-Ends,
}
use model_id.Cas.{
  CasStore, make_parent, touch, make_touch, contains, path_for_hash, staging_dir, staging_path,
  move_object, promote, publish, checked, stage, store_crash_safe,
}

pub make_parent-Holds :
    (q : FilePath) (t : Text) (p : Option FilePath) → Keeps (Holds q t) (make_parent p)
make_parent-Holds q t none = Keeps-pure tt
make_parent-Holds q t (some p) = create_dir_all-Holds q t p

pub touch-Keeps : {P : Fs → Database → Type 0} (p : FilePath) → Keeps P (touch p)
touch-Keeps p = Keeps-bind _ _ (len-Keeps p) λ n. Keeps-pure tt

pub make_touch-Keeps : {P : Fs → Database → Type 0} (p : Option FilePath) → Keeps P (make_touch p)
make_touch-Keeps none = Keeps-pure tt
make_touch-Keeps (some p) = touch-Keeps p

-- Both files hold the content.
abbrev Both : FilePath → FilePath → Text → Fs → Database → Type 0
Both p q t fs db = Holds p t fs db × Holds q t fs db

-- The object comes to its place, and no other file is touched.
module _ (cas : CasStore) (staging dest : FilePath) where
  pub promote-Holds :
      (q : FilePath) (t : Text)
      → staging ≢ q
      → dest ≢ q
      → Keeps (Holds q t) (promote cas staging dest)
  promote-Holds q t not_staging not_dest =
      Keeps-bind _ _ (Keeps-try _ (rename-Holds q t staging dest not_staging not_dest)) by_result
    where
      by_result : (r : Result (Unit {0})) → Keeps (Holds q t) (move_object cas staging dest r)
      by_result (ok u) = Keeps-pure tt
      by_result (err e) = Keeps-bind _ _ (copy-Holds q t staging dest not_dest) λ _.
          Keeps-bind _ _ (Keeps-try _ (remove_file-Holds q t staging not_staging))
            λ _. Keeps-pure tt

  pub promote-Ends :
      (t : Text) (w : World)
      → staging ≢ dest
      → lookup staging w.fs ≡ some (file t)
      → Ends (λ _ v. Holds dest t v.fs v.db) (λ _. Unit) (promote cas staging dest w)
  promote-Ends t w apart g =
      Ends-bind (try (rename staging dest)) _ w
        (tried-Ends (rename staging dest) w (rename-Ends staging dest t apart w g)) by_result
        (λ v h. h)
    where
      by_result :
          (r : Result (Unit {0})) (v : World)
          → ((u : Unit {0})
              → r ≡ ok u
              → (lookup dest v.fs ≡ some (file t)) × (lookup staging v.fs ≡ none))
            × ((e : Error) → r ≡ err e → v.fs ≡ w.fs)
          → Ends {A = Unit {0}}
              (λ _ v. Holds dest t v.fs v.db)
              (λ _. Unit)
              (move_object cas staging dest r v)
      by_result (ok u) v (good, _) = Ends-pure tt v (good u refl).0
      by_result (err e) v (_, bad) =
          Ends-bind (copy staging dest) _ v
            (copy-Ends staging dest t apart v (ap (lookup staging) (bad e refl) ∙ g))
            (λ _ u (d, _).
              Ends-mono
                (Keeps-Ends _ u
                  (Keeps-bind _ _ (Keeps-try _ (remove_file-Holds dest t staging apart))
                    λ _. Keeps-pure tt)
                  d)
                (λ _ x b. b) (λ x b. tt))
            (λ u _. tt)

module _ (cas : CasStore) (source staging dest : FilePath) (t : Text)
    (not_staging : source ≢ staging) (not_dest : source ≢ dest) (apart : staging ≢ dest) where
  publish-Ends :
      (w : World)
      → Both source staging t w.fs w.db
      → Ends
          (λ p v. (p ≡ dest) × Both source dest t v.fs v.db)
          (λ v. Holds source t v.fs v.db)
          (publish cas staging dest w)
  publish-Ends w h =
      Keeps-then (make_parent (parent dest)) _ w
        (Keeps-and (make_parent-Holds source t (parent dest))
          (make_parent-Holds staging t (parent dest)))
        h
        (λ _ v k.
          Ends-bind (promote cas staging dest) _ v
            (Ends-and (promote cas staging dest) v (promote-Ends cas staging dest t v apart k.1)
              (promote-Holds cas staging dest source t (λ x. not_staging (sym x))
                (λ x. not_dest (sym x)))
              k.0)
            (λ _ u (d, h).
              Keeps-then (make_touch (parent dest)) _ u
                (make_touch-Keeps {P = Both source dest t} (parent dest)) (h, d)
                (λ _ x c.
                  Keeps-then (touch dest) _ x (touch-Keeps {P = Both source dest t} dest) c
                    (λ _ y d. Ends-pure dest y (refl, d)) (λ y d. d.0))
                (λ x c. c.0))
            (λ u (_, h). h))
        (λ v k. k.0)

-- The staging file has another name than the object.
staging-apart :
    (cas : CasStore) (hash : Blake3Hash) (tx_id : Text)
    → staging_path cas hash tx_id ≢ path_for_hash cas hash
unfolding path_for_hash as_hex
staging-apart cas hash tx_id e = omega (
  arith,
  ap length (
      sym (file_name-join (staging_dir cas tx_id) (hash.hex ++ codes ".part"))
      ∙ ap file_name e
      ∙ file_name-join _ hash.hex),
  length-append hash.hex (codes ".part"),
)

-- The object has the content of the source, which has the hash.
abbrev pub IsStored :
    CasStore → (Text → Blake3Hash) → FilePath → Blake3Hash → Text → FilePath → World → Type 0
IsStored cas blake3 source expected t p v =
    (p ≡ path_for_hash cas expected)
    × Holds source t v.fs v.db
    × Holds (path_for_hash cas expected) t v.fs v.db
    × (as_hex (blake3 t) ≡ as_hex expected)

module _ (cas : CasStore) (blake3 : Text → Blake3Hash) (source : FilePath) (expected : Blake3Hash)
    (tx_id t : Text) (not_staging : source ≢ staging_path cas expected tx_id)
    (not_dest : source ≢ path_for_hash cas expected) where
  checked-Ends :
      (agrees : Bool) (e : Error) (next : M FilePath) (w : World)
      → Holds source t w.fs w.db
      → (agrees ≡ true
          → Ends (IsStored cas blake3 source expected t) (λ v. Holds source t v.fs v.db) (next w))
      → Ends
          (IsStored cas blake3 source expected t)
          (λ v. Holds source t v.fs v.db)
          (checked cas
            (staging_path cas expected tx_id)
            (path_for_hash cas expected)
            agrees
            e
            next
            w)
  checked-Ends true e next w h k = k refl
  checked-Ends false e next w h k =
      Keeps-then (try (remove_file (staging_path cas expected tx_id))) _ w
        (Keeps-try _
          (remove_file-Holds source t (staging_path cas expected tx_id) (λ x. not_staging (sym x))))
        h (λ _ v g. Ends-throw e v g) (λ v g. g)

  stage-Ends :
      (w : World)
      → Holds source t w.fs w.db
      → Ends
          (IsStored cas blake3 source expected t)
          (λ v. Holds source t v.fs v.db)
          (stage cas blake3 source expected tx_id w)
  stage-Ends w h =
      Keeps-then (create_dir_all (staging_dir cas tx_id)) _ w
        (create_dir_all-Holds source t (staging_dir cas tx_id)) h
        (λ _ w1 h1.
          Keeps-then (metadata_len source) _ w1 (len-Keeps {P = Holds source t} source) h1
            (λ size w2 h2.
              Ends-bind (read_to_string source) _ w2
                (Ends-and (read_to_string source) w2 (read_to_string-Ends source w2)
                  (read-Keeps {P = Holds source t} source) h2)
                (λ content w3 (at, h3). written content size w3 (same w3.fs at h3) h3)
                (λ w3 (_, h3). h3))
            (λ w2 h2. h2))
        (λ w1 h1. h1)
    where
      same :
          {content : Text} (fs : Fs)
          → lookup source fs ≡ some (file content)
          → lookup source fs ≡ some (file t)
          → t ≡ content
      same fs a b = of_file (sym b ∙ a)
        where
          of_file : {x y : Text} → some (file x) ≡ some (file y) → x ≡ y
          of_file e = cc

      written :
          (content : Text) (size : ℕ) (v : World)
          → t ≡ content
          → Holds source t v.fs v.db
          → Ends
              (IsStored cas blake3 source expected t)
              (λ v. Holds source t v.fs v.db)
              ((write (staging_path cas expected tx_id) content
                  >> checked cas
                      (staging_path cas expected tx_id)
                      (path_for_hash cas expected)
                      (length content == size)
                      size_mismatch
                      (checked cas
                        (staging_path cas expected tx_id)
                        (path_for_hash cas expected)
                        (as_hex (blake3 content) == as_hex expected)
                        hash_mismatch
                        (publish cas
                          (staging_path cas expected tx_id)
                          (path_for_hash cas expected))))
                v)
      written content size v e h =
          Ends-bind (write (staging_path cas expected tx_id) content) _ v
            (Ends-and (write (staging_path cas expected tx_id) content) v
              (write-Ends (staging_path cas expected tx_id) content v)
              (write-Holds source t (staging_path cas expected tx_id) content
                (λ x. not_staging (sym x)))
              h)
            (λ _ u (g, k). checked-Ends (length content == size) size_mismatch _ u k λ _.
              checked-Ends (as_hex (blake3 content) == as_hex expected) hash_mismatch _ u k
                λ agrees.
                  Ends-mono
                    (publish-Ends cas source (staging_path cas expected tx_id)
                      (path_for_hash cas expected) t not_staging not_dest
                      (staging-apart cas expected tx_id) u
                      (
                        k,
                        subst (λ c. Holds (staging_path cas expected tx_id) c u.fs u.db) (sym e) g,
                      ))
                    (λ p x (q, (s, d)). (
                      q,
                      s,
                      d,
                      ap (λ c. as_hex (blake3 c)) e
                          ∙ (==_iff (as_hex (blake3 content)) (as_hex expected)).0 agrees,
                    ))
                    (λ x s. s))
            (λ u (_, k). k)

  -- `store_crash_safe` of a hash that has no object, whatever calls fail: if it returns, the object
  -- holds the content of the source, the content has the hash, and in any case the source is as it
  -- was; the source is neither the object nor the staging file.
  pub store_crash_safe-IsStored :
      (w : World)
      → Holds source t w.fs w.db
      → contains cas expected w ≡ false
      → Ends
          (IsStored cas blake3 source expected t)
          (λ v. Holds source t v.fs v.db)
          (store_crash_safe cas blake3 source expected tx_id w)
  unfolding store_crash_safe
  store_crash_safe-IsStored w h absent =
      Ends-bind (gets (contains cas expected)) _ w (gets-Ends (contains cas expected) w)
        (λ there v (e, same).
          rw (e ∙ ap (contains cas expected) same ∙ absent)
            (stage-Ends v (subst (λ (x : World). Holds source t x.fs x.db) (sym same) h)))
        (λ v f. f)
