-- ===== src/Dedup/Recover.antt =====
-- `recover_incomplete_transactions` of crates/modeld-core/src/dedup.rs on Unix. How a text is read as a
-- path and serde_json's reader of a list of texts are parameters, as the devices are.
use model_id.Base.{
  ℕ, Bool, true, false, Option, none, some, List, [], ◌∷◌, ◌++◌, map, length, ltb, if◌then◌else◌,
  list_eq, nat_eq, ◌==◌,
}
use model_id.Base.Text.{Text, codes}
use model_id.Base.Results.{Result, ok, err, panic}
use model_id.Hash.{Blake3Hash, from_hex}
use model_id.Db.{WalTransaction}
use model_id.Db.Wal
use model_id.Db.Enums
use model_id.Db.Enums.{AliasType, TransactionStatus, reference_only, original, user}
use model_id.Db.Aliases.{insert_alias, delete_alias}
use model_id.Cas.{make_parent, touch, failed}
use model_id.Tx.{update_wal_status}
use model_id.Links
use model_id.Links.{LinkResult, LinkCapability, create_link}
use model_id.Dedup.{DedupEngine}
use model_id.Dedup.Linking.{cas_path_for_hash}
use model_id.Dedup.Execute.{staging_dir}
use model_id.Sys.{FilePath, M, pure, throw, gets, try, now, ◌>>=◌, ◌>>◌}
use model_id.Sys.Files.{join, parent, exists, copy, rename, remove_file}
use model_id.Sys.Tables.{query, execute, attempt}

abbrev pub type_or : AliasType → LinkResult → AliasType
type_or other (Links.success t) = t
type_or other Links.failed = other

-- A row whose writing is tried.
abbrev pub try_alias : Blake3Hash → FilePath → AliasType → M (Unit {0})
try_alias hash path t = do at ← now; try (attempt (insert_alias at hash path user t)); pure tt

-- `&tx.tx_id[..8]` of a message
abbrev pub short_id : Text → M (Unit {0})
short_id tx_id = if ltb (length tx_id) 8 then throw panic else pure tt

-- A rename that failed, with the copy in its place.
abbrev pub copy_staged : FilePath → FilePath → Bool → M (Unit {0})
copy_staged staging cas_path false = pure tt
copy_staged staging cas_path true = do
  copied ← try (copy staging cas_path)
  if failed copied then pure tt else (do try (remove_file staging); pure tt)

abbrev pub make_readonly : FilePath → Bool → M (Unit {0})
make_readonly cas_path false = pure tt
make_readonly cas_path true = do try (touch cas_path); pure tt

abbrev pub move_staged : FilePath → FilePath → M (Unit {0})
move_staged staging cas_path = do
  try (make_parent (parent cas_path))
  renamed ← try (rename staging cas_path)
  copy_staged staging cas_path (failed renamed)
  made ← gets (exists cas_path)
  make_readonly cas_path made

abbrev pub place_staged : FilePath → FilePath → Bool → Bool → M (Unit {0})
place_staged staging cas_path true false = move_staged staging cas_path
place_staged staging cas_path true true = do try (remove_file staging); pure tt
place_staged staging cas_path false there = pure tt

module _ (device : FilePath → ℕ) (capability : LinkCapability) where
  -- The link of one path, with its alias.
  abbrev pub relink : Blake3Hash → FilePath → FilePath → AliasType → M (Unit {0})
  relink hash path cas_path other = do
    link_res ← create_link device path cas_path capability
    try (execute (delete_alias path))
    try_alias hash path (type_or other link_res)

  abbrev pub relink_canonical : Blake3Hash → FilePath → FilePath → Bool → M (Unit {0})
  relink_canonical hash src cas_path false = pure tt
  relink_canonical hash src cas_path true =
      if src == cas_path then try_alias hash src original else relink hash src cas_path original

  abbrev pub relink_duplicate : Blake3Hash → FilePath → FilePath → Bool → M (Unit {0})
  relink_duplicate hash path cas_path false = pure tt
  relink_duplicate hash path cas_path true = relink hash path cas_path reference_only

  unfoldable pub relink_duplicates : Blake3Hash → FilePath → List FilePath → M (Unit {0})
  unfolding create_link
  relink_duplicates hash cas_path [] = pure tt
  relink_duplicates hash cas_path (p ∷ ps) = do
    there ← gets (exists p)
    relink_duplicate hash p cas_path there
    relink_duplicates hash cas_path ps

  module _ (path_of : Text → FilePath) (texts_from_str : Text → Option (List Text))
      (e : DedupEngine) where
    abbrev pub texts_or_empty : Option (List Text) → List FilePath
    texts_or_empty none = []
    texts_or_empty (some ts) = map path_of ts

    abbrev pub dup_paths : Option Text → List FilePath
    dup_paths none = []
    dup_paths (some m) = texts_or_empty (texts_from_str m)

    abbrev pub relink_all : WalTransaction → Blake3Hash → Text → Bool → M (Unit {0})
    relink_all tx hash source_path false = pure tt
    relink_all tx hash source_path true = do
      there ← gets (exists (path_of source_path))
      relink_canonical hash (path_of source_path) (cas_path_for_hash e hash) there
      relink_duplicates hash (cas_path_for_hash e hash) (dup_paths tx.metadata)
      short_id tx.tx_id

    abbrev pub staged_at : Text → FilePath
    staged_at hash = join (staging_dir e) (hash ++ codes ".tmp")

    -- Phase B of a transaction whose phase A is done.
    abbrev pub finish_copied : WalTransaction → Text → Text → Result Blake3Hash → M (Unit {0})
    finish_copied tx hash_str source_path (err x) = pure tt
    finish_copied tx hash_str source_path (ok hash) = do
      staged ← gets (exists (staged_at hash_str))
      there ← gets (exists (cas_path_for_hash e hash))
      place_staged (staged_at hash_str) (cas_path_for_hash e hash) staged there
      placed ← gets (exists (cas_path_for_hash e hash))
      relink_all tx hash source_path placed

    abbrev pub recover_copied : WalTransaction → Option Text → Option Text → M (Unit {0})
    recover_copied tx none source_path = pure tt
    recover_copied tx (some hash_str) none = pure tt
    recover_copied tx (some hash_str) (some source_path) =
        finish_copied tx hash_str source_path (from_hex hash_str)

    abbrev pub drop_staged : FilePath → Bool → M (Unit {0})
    drop_staged staging false = pure tt
    drop_staged staging true = do try (remove_file staging); pure tt

    abbrev pub recover_pending : Option Text → M (Unit {0})
    recover_pending none = pure tt
    recover_pending (some hash) = do
      there ← gets (exists (staged_at hash))
      drop_staged (staged_at hash) there

    abbrev pub recover_by : WalTransaction → TransactionStatus → M (Unit {0})
    recover_by tx Enums.pending = do
      recover_pending tx.target_hash
      update_wal_status tx.tx_id Enums.failed
      short_id tx.tx_id
    recover_by tx Enums.copied = do
      recover_copied tx tx.target_hash tx.source_path
      update_wal_status tx.tx_id Enums.committed
      execute (Wal.delete_wal_transaction tx.tx_id)
    recover_by tx Enums.committed = execute (Wal.delete_wal_transaction tx.tx_id)
    recover_by tx Enums.failed = execute (Wal.delete_wal_transaction tx.tx_id)
    recover_by tx Enums.rolled_back = execute (Wal.delete_wal_transaction tx.tx_id)

    unfoldable pub recover_each : List WalTransaction → M (Unit {0})
    unfolding relink_duplicates from_hex update_wal_status
    recover_each [] = pure tt
    recover_each (tx ∷ txs) = do recover_by tx tx.status; recover_each txs

    unfoldable pub recover_incomplete_transactions : M ℕ
    unfolding recover_each
    recover_incomplete_transactions = do
      incomplete ← query Wal.get_incomplete_wal_transactions
      recover_each incomplete
      pure (length incomplete)
