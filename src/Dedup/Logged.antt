-- ===== src/Dedup/Logged.antt =====
-- The steps of `recover_incomplete_transactions` (crates/modeld-core/src/dedup.rs) on files and aliases
-- leave the log alone.
use model_id.Base.{
  ℕ, ◌≡◌, subst, Bool, true, false, Option, none, some, List, [], ◌∷◌, any, ltb, length,
  if◌then◌else◌, list_eq, nat_eq, ◌==◌,
}
use model_id.Base.Text.{Text}
use model_id.Base.Results.{Result, ok, err, panic, unique_violation, foreign_key_violation}
use model_id.Hash.{Blake3Hash, from_hex}
use model_id.Db.{Database, WalTransaction}
use model_id.Db.Enums.{AliasType, original, reference_only, user}
use model_id.Db.Models.{has_model}
use model_id.Db.Aliases.{insert_alias, delete_alias, at_path}
use model_id.Cas.{make_parent, failed}
use model_id.Links.{
  LinkCapability, hardlink_after, symlink_after, create_hardlink, create_symlink, create_across,
  create_link,
}
use model_id.Dedup.{DedupEngine}
use model_id.Dedup.Linking.{cas_path_for_hash}
use model_id.Dedup.Recover.{
  type_or, try_alias, short_id, copy_staged, make_readonly, place_staged, relink, relink_canonical,
  relink_duplicate, relink_duplicates, dup_paths, relink_all, staged_at, finish_copied,
  recover_copied, drop_staged, recover_pending,
}
use model_id.Sys.{FilePath}
use model_id.Sys.Files.{parent}
use model_id.Sys.Keeps.{
  Keeps, Keeps-pure, Keeps-throw, Keeps-bind, Keeps-try, Keeps-if, Keeps-gets, Keeps-now,
}
use model_id.Sys.Apart.{
  create_dir_all-Keeps_db, remove_file-Keeps_db, rename-Keeps_db, copy-Keeps_db, len-Keeps,
  attempt-Keeps_db, execute-Keeps_db,
}
use model_id.Sys.Links.{hard_link-Keeps_db, symlink-Keeps_db}

-- The files and the aliases may change; the log does not.
module _ (P : List WalTransaction → Type 0) where
  abbrev pub Log : Database → Type 0
  Log db = P db.wal_transactions

  insert_alias-Log :
      (at : ℕ) (hash : Blake3Hash) (path : FilePath) (t : AliasType) (db db' : Database) (id : ℕ)
      → insert_alias at hash path user t db ≡ ok (id, db')
      → Log db
      → Log db'
  unfolding insert_alias
  insert_alias-Log at hash path t db db' id e h =
      by_tests (any (at_path path) db.aliases) (has_model hash db.models) _ _ h e
    where
      by_tests :
          (taken known : Bool) (made returned : ℕ × Database)
          → Log made.1
          → (if taken
              then err unique_violation
              else if known
              then ok made
              else err foreign_key_violation)
            ≡ ok returned
          → Log returned.1
      by_tests true known made returned h e = cc
      by_tests false false made returned h e = cc
      by_tests false true made returned h e = subst (λ (r : ℕ × Database). Log r.1) (same e) h
        where
          same : {x y : ℕ × Database} → ok x ≡ ok y → x ≡ y
          same e = cc

  try_alias-Keeps :
      (hash : Blake3Hash) (path : FilePath) (t : AliasType)
      → Keeps (λ _ db. Log db) (try_alias hash path t)
  try_alias-Keeps hash path t = Keeps-bind _ _ Keeps-now λ at.
      Keeps-bind _ _
        (Keeps-try _
          (attempt-Keeps_db {P = Log} _ (λ db db' id. insert_alias-Log at hash path t db db' id)))
        λ _. Keeps-pure tt

  create_link-Keeps_db :
      (device : FilePath → ℕ) (source target : FilePath) (capability : LinkCapability)
      → Keeps (λ _ db. Log db) (create_link device source target capability)
  unfolding create_link create_hardlink create_symlink
  create_link-Keeps_db device source target capability =
      Keeps-bind _ _
        (Keeps-bind _ _ (Keeps-try _ (len-Keeps {P = λ _ db. Log db} source)) λ m1.
          Keeps-bind _ _ (Keeps-try _ (len-Keeps {P = λ _ db. Log db} target)) λ m2. Keeps-pure _)
        by_volume
    where
      hard : (r : Result (Unit {0})) → Keeps (λ _ db. Log db) (hardlink_after source target r)
      hard (err e) = Keeps-pure _
      hard (ok u) =
          Keeps-bind _ _ (Keeps-try _ (hard_link-Keeps_db {P = Log} target source))
            λ r. Keeps-pure _

      soft : (r : Result (Unit {0})) → Keeps (λ _ db. Log db) (symlink_after source target r)
      soft (err e) = Keeps-pure _
      soft (ok u) =
          Keeps-bind _ _ (Keeps-try _ (symlink-Keeps_db {P = Log} target source)) λ r. Keeps-pure _

      by_volume :
          (same : Bool)
          → Keeps (λ _ db. Log db) (create_across device source target capability same)
      by_volume true = Keeps-bind _ _ (Keeps-try _ (remove_file-Keeps_db {P = Log} source)) hard
      by_volume false =
          Keeps-if capability.has_symlink_privilege _ _
            (λ _. Keeps-bind _ _ (Keeps-try _ (remove_file-Keeps_db {P = Log} source)) soft)
            λ _. Keeps-pure _

  place_staged-Keeps :
      (staging cas_path : FilePath) (staged there : Bool)
      → Keeps (λ _ db. Log db) (place_staged staging cas_path staged there)
  place_staged-Keeps staging cas_path false there = Keeps-pure tt
  place_staged-Keeps staging cas_path true true =
      Keeps-bind _ _ (Keeps-try _ (remove_file-Keeps_db {P = Log} staging)) λ _. Keeps-pure tt
  place_staged-Keeps staging cas_path true false =
      Keeps-bind _ _ (Keeps-try _ (parent-Keeps (parent cas_path))) λ _.
        Keeps-bind _ _ (Keeps-try _ (rename-Keeps_db {P = Log} staging cas_path)) λ renamed.
          Keeps-bind _ _ (copied (failed renamed))
            λ _. Keeps-bind _ _ (Keeps-gets _) λ made. readonly made
    where
      parent-Keeps : (p : Option FilePath) → Keeps (λ _ db. Log db) (make_parent p)
      parent-Keeps none = Keeps-pure tt
      parent-Keeps (some p) = create_dir_all-Keeps_db {P = Log} p

      copied : (b : Bool) → Keeps (λ _ db. Log db) (copy_staged staging cas_path b)
      copied false = Keeps-pure tt
      copied true = Keeps-bind _ _ (Keeps-try _ (copy-Keeps_db {P = Log} staging cas_path)) λ r.
          Keeps-if (failed r) _ _ (λ _. Keeps-pure tt)
            λ _.
              Keeps-bind _ _ (Keeps-try _ (remove_file-Keeps_db {P = Log} staging))
                λ _. Keeps-pure tt

      readonly : (b : Bool) → Keeps (λ _ db. Log db) (make_readonly cas_path b)
      readonly false = Keeps-pure tt
      readonly true =
          Keeps-bind _ _
            (Keeps-try _
              (Keeps-bind _ _ (len-Keeps {P = λ _ db. Log db} cas_path) λ n. Keeps-pure tt))
            λ _. Keeps-pure tt

  relink-Keeps :
      (device : FilePath → ℕ) (capability : LinkCapability) (hash : Blake3Hash)
      (path cas_path : FilePath) (t : AliasType)
      → Keeps (λ _ db. Log db) (relink device capability hash path cas_path t)
  unfolding delete_alias
  relink-Keeps device capability hash path cas_path t =
      Keeps-bind _ _ (create_link-Keeps_db device path cas_path capability) λ made.
        Keeps-bind _ _ (Keeps-try _ (execute-Keeps_db {P = Log} (delete_alias path) (λ db h. h)))
          λ _. try_alias-Keeps hash path (type_or t made)

  module _ (device : FilePath → ℕ) (capability : LinkCapability) where
    relink_canonical-Keeps :
        (hash : Blake3Hash) (src cas_path : FilePath) (there : Bool)
        → Keeps (λ _ db. Log db) (relink_canonical device capability hash src cas_path there)
    relink_canonical-Keeps hash src cas_path false = Keeps-pure tt
    relink_canonical-Keeps hash src cas_path true =
        Keeps-if (src == cas_path) _ _ (λ _. try_alias-Keeps hash src original)
          λ _. relink-Keeps device capability hash src cas_path original

    relink_duplicates-Keeps :
        (hash : Blake3Hash) (cas_path : FilePath) (ps : List FilePath)
        → Keeps (λ _ db. Log db) (relink_duplicates device capability hash cas_path ps)
    unfolding relink_duplicates
    relink_duplicates-Keeps hash cas_path [] = Keeps-pure tt
    relink_duplicates-Keeps hash cas_path (p ∷ ps) =
        Keeps-bind _ _ (Keeps-gets _)
          λ there. Keeps-bind _ _ (by_test there) λ _. relink_duplicates-Keeps hash cas_path ps
      where
        by_test :
            (there : Bool)
            → Keeps (λ _ db. Log db) (relink_duplicate device capability hash p cas_path there)
        by_test false = Keeps-pure tt
        by_test true = relink-Keeps device capability hash p cas_path reference_only

    pub short_id-Keeps : (tx_id : Text) → Keeps (λ _ db. Log db) (short_id tx_id)
    short_id-Keeps tx_id =
        Keeps-if (ltb (length tx_id) 8) _ _ (λ _. Keeps-throw panic) λ _. Keeps-pure tt

    module _ (path_of : Text → FilePath) (texts_from_str : Text → Option (List Text))
        (e : DedupEngine) where
      pub recover_copied-Keeps :
          (tx : WalTransaction) (hash source_path : Option Text)
          → Keeps
              (λ _ db. Log db)
              (recover_copied device capability path_of texts_from_str e tx hash source_path)
      unfolding from_hex
      recover_copied-Keeps tx none source_path = Keeps-pure tt
      recover_copied-Keeps tx (some hash_str) none = Keeps-pure tt
      recover_copied-Keeps tx (some hash_str) (some source_path) = by_hash (from_hex hash_str)
        where
          linked :
              (hash : Blake3Hash) (placed : Bool)
              → Keeps
                  (λ _ db. Log db)
                  (relink_all device capability path_of texts_from_str e tx hash source_path placed)
          linked hash false = Keeps-pure tt
          linked hash true = Keeps-bind _ _ (Keeps-gets _) λ there.
              Keeps-bind _ _
                (relink_canonical-Keeps hash (path_of source_path) (cas_path_for_hash e hash) there)
                λ _.
                  Keeps-bind _ _
                    (relink_duplicates-Keeps hash (cas_path_for_hash e hash)
                      (dup_paths device capability path_of texts_from_str e tx.metadata))
                    λ _. short_id-Keeps tx.tx_id

          by_hash :
              (r : Result Blake3Hash)
              → Keeps
                  (λ _ db. Log db)
                  (finish_copied device capability path_of texts_from_str e tx hash_str source_path
                    r)
          by_hash (err x) = Keeps-pure tt
          by_hash (ok hash) = Keeps-bind _ _ (Keeps-gets _) λ staged.
              Keeps-bind _ _ (Keeps-gets _) λ there.
                Keeps-bind _ _
                  (place_staged-Keeps
                    (staged_at device capability path_of texts_from_str e hash_str)
                    (cas_path_for_hash e hash) staged there)
                  λ _. Keeps-bind _ _ (Keeps-gets _) λ placed. linked hash placed

      pub recover_pending-Keeps :
          (hash : Option Text)
          → Keeps (λ _ db. Log db) (recover_pending device capability path_of texts_from_str e hash)
      recover_pending-Keeps none = Keeps-pure tt
      recover_pending-Keeps (some hash) = Keeps-bind _ _ (Keeps-gets _) by_test
        where
          by_test :
              (there : Bool)
              → Keeps
                  (λ _ db. Log db)
                  (drop_staged device capability path_of texts_from_str e
                    (staged_at device capability path_of texts_from_str e hash)
                    there)
          by_test false = Keeps-pure tt
          by_test true =
              Keeps-bind _ _ (Keeps-try _ (remove_file-Keeps_db {P = Log} _)) λ _. Keeps-pure tt
