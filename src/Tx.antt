-- ===== src/Tx.antt =====
-- crates/modeld-core/src/tx.rs: transactions over the log table of the database, their rollback and
-- the recovery after a crash. A UUID is an argument; the JSON of paths and plans is serde_json's, a
-- parameter. A statement that prints a warning and goes on is left out.
pub mod Recovery
pub mod Live
pub mod Rollback
pub mod Rows
pub mod Begun
pub mod History
pub mod Cleanup
pub mod Listing
pub mod Codec
mod Tests
use mathlib.Core.Bool.{not}
use model_id.Base.{
  ℕ, ◌+◌, ◌-◌, ◌≡◌, Bool, true, false, ◌&&◌, Option, none, some, List, [], ◌∷◌, ◌++◌, ltb,
  if◌then◌else◌, list_eq, nat_eq, ◌==◌,
}
use model_id.Base.Text.{Text, codes}
use model_id.Base.Results.{Result, ok, err, Error, parse_error, not_found, out_of_range}
use model_id.Hash.{Blake3Hash}
use model_id.Db.{Database, WalTransaction}
use model_id.Db.Enums.{TransactionStatus}
use model_id.Db.Enums
use model_id.Db.Wal
use model_id.Db.Wal.{get_wal_transaction, get_incomplete_wal_transactions, list_wal_transactions}
use model_id.Sys.{FilePath, World, M, pure, throw, gets, try, now, ◌>>=◌, ◌>>◌}
use model_id.Sys.Files.{
  join, parent, with_extension, exists, copy, rename, remove_file, remove_dir_all,
}
use model_id.Sys.Tables.{query, execute, attempt}

pub data OpType : Type 0 where
  dedup unlink gc quarantine_cleanup alias_rewrite cas_promotion hf_download_commit
        store_migration :
      OpType

unfoldable pub as_str : OpType → Text
as_str dedup = codes "dedup"
as_str unlink = codes "unlink"
as_str gc = codes "gc"
as_str quarantine_cleanup = codes "quarantine_cleanup"
as_str alias_rewrite = codes "alias_rewrite"
as_str cas_promotion = codes "cas_promotion"
as_str hf_download_commit = codes "hf_download_commit"
as_str store_migration = codes "store_migration"

unfoldable pub parse_str : Text → Option OpType
parse_str s =
    if s == codes "dedup"
    then some dedup
    else if s == codes "unlink"
    then some unlink
    else if s == codes "gc"
    then some gc
    else if s == codes "quarantine_cleanup"
    then some quarantine_cleanup
    else if s == codes "alias_rewrite"
    then some alias_rewrite
    else if s == codes "cas_promotion"
    then some cas_promotion
    else if s == codes "hf_download_commit"
    then some hf_download_commit
    else if s == codes "store_migration"
    then some store_migration
    else none

pub data TxStatus : Type 0 where
  pending committed failed rolled_back : TxStatus

abbrev pub from_db : TransactionStatus → TxStatus
from_db Enums.pending = pending
from_db Enums.copied = pending
from_db Enums.committed = committed
from_db Enums.failed = failed
from_db Enums.rolled_back = rolled_back

abbrev pub to_db : TxStatus → TransactionStatus
to_db pending = Enums.pending
to_db committed = Enums.committed
to_db failed = Enums.failed
to_db rolled_back = Enums.rolled_back

pub record PathEntry : Type 0 where
  pub source : FilePath
  pub target : Option FilePath
  pub original_hash : Option Blake3Hash
  pub new_hash : Option Blake3Hash
  pub size : ℕ

pub record RollbackPlan : Type 0 where
  pub entries : List PathEntry

pub record TxPlan : Type 0 where
  pub op_type : OpType
  pub affected_paths : List PathEntry
  pub rollback_plan : RollbackPlan

pub record TxRecord : Type 0 where
  pub tx_id : Text
  pub op_type : Option OpType
  pub status : TxStatus
  pub start_time : ℕ
  pub end_time : Option ℕ
  pub affected_paths : List PathEntry
  pub rollback_plan : RollbackPlan
  pub error_message : Option Text

pub record TxFilter : Type 0 where
  pub status : Option TxStatus
  pub op_type : Option OpType

pub data RecoveryAction : Type 0 where
  marked_failed staging_cleaned : RecoveryAction

pub record TxRecoveryResult : Type 0 where
  pub tx_id : Text
  pub action : RecoveryAction

-- serde_json on lists of path entries and on rollback plans
pub record Serde : Type 0 where
  pub paths_to_string : List PathEntry → Option Text
  pub paths_from_str : Text → Option (List PathEntry)
  pub plan_to_string : RollbackPlan → Option Text
  pub plan_from_str : Text → Option RollbackPlan

pub record RoundTrips (json : Serde) : Type 0 where
  pub paths_from-to :
      (ps : List PathEntry) (t : Text)
      → json.paths_to_string ps ≡ some t
      → json.paths_from_str t ≡ some ps
  pub plan_from-to :
      (p : RollbackPlan) (t : Text) → json.plan_to_string p ≡ some t → json.plan_from_str t ≡ some p

abbrev pub or_throw : {A : Type 0} → Error → Option A → M A
or_throw e none = throw e
or_throw e (some a) = pure a

abbrev pub failed_call {ℓ} : {A : Type ℓ} → Result A → Bool
failed_call (ok a) = false
failed_call (err e) = true

-- The methods of the database that read the clock themselves.
unfoldable pub insert_wal_transaction : Text → Text → TransactionStatus → M ℕ
insert_wal_transaction tx_id operation status = do
  at ← now
  attempt (Wal.insert_wal_transaction at tx_id operation status none none none)

unfoldable pub update_wal_status : Text → TransactionStatus → M (Unit {0})
update_wal_status tx_id status = do at ← now; execute (Wal.update_wal_status at tx_id status)

unfoldable pub update_wal_extended :
    Text → Option Text → Option Text → Option Text → Option ℕ → Option Text → M (Unit {0})
update_wal_extended tx_id op_type affected_paths rollback_plan end_time error_message = do
  at ← now
  execute
      (Wal.update_wal_extended at tx_id op_type affected_paths rollback_plan end_time error_message)

-- The status, and then the end time with the message.
abbrev pub finish : Text → TransactionStatus → Option Text → M (Unit {0})
finish tx_id status message = do
  end_time ← now
  update_wal_status tx_id status
  update_wal_extended tx_id none none none (some end_time) message

unfoldable pub commit : Text → M (Unit {0})
unfolding update_wal_status update_wal_extended
commit tx_id = finish tx_id Enums.committed none

unfoldable pub fail : Text → Text → M (Unit {0})
unfolding update_wal_status update_wal_extended
fail tx_id message = finish tx_id Enums.failed (some message)

-- Copies the object to a file beside the source, and renames this over the source.
abbrev pub put_back : FilePath → FilePath → M (Unit {0})
put_back from source = do
  copy from (with_extension source (codes "rollback_tmp"))
  rename (with_extension source (codes "rollback_tmp")) source

abbrev pub restore_from : FilePath → Option FilePath → M (Unit {0})
restore_from source none = pure tt
restore_from source (some t) = do
  there ← gets (exists t)
  if there then put_back t source else pure tt

abbrev pub has_dir : Option FilePath → World → Bool
has_dir none w = true
has_dir (some p) w = exists p w

unfoldable pub restore_entry : PathEntry → M (Unit {0})
restore_entry entry = do
  there ← gets (has_dir (parent entry.source))
  if not there then pure tt else restore_from entry.source entry.target

-- The loop over the entries, which goes on after an error.
unfoldable pub restore_entries : List PathEntry → M (Unit {0})
unfolding restore_entry
restore_entries [] = pure tt
restore_entries (e ∷ es) = do try (restore_entry e); restore_entries es

-- What recovery adds to its results when the staging directory is there.
abbrev pub cleaned : Text → Result (Unit {0}) → List TxRecoveryResult
cleaned tx_id (ok u) = record { tx_id = tx_id; action = staging_cleaned } ∷ []
cleaned tx_id (err e) = []

module _ (json : Serde) (store_path : FilePath) where
  unfoldable pub begin : Text → TxPlan → M Text
  unfolding insert_wal_transaction update_wal_extended
  begin tx_id plan = do
    affected ← or_throw parse_error (json.paths_to_string plan.affected_paths)
    rollback ← or_throw parse_error (json.plan_to_string plan.rollback_plan)
    insert_wal_transaction tx_id (as_str plan.op_type) Enums.pending
    update_wal_extended tx_id (some (as_str plan.op_type)) (some affected) (some rollback) none none
    pure tx_id

  abbrev pub restore_plan : Option RollbackPlan → M (Unit {0})
  restore_plan none = pure tt
  restore_plan (some plan) = restore_entries plan.entries

  abbrev pub restore_json : Option Text → M (Unit {0})
  restore_json none = pure tt
  restore_json (some text) = restore_plan (json.plan_from_str text)

  abbrev pub is_rolled_back : TransactionStatus → Bool
  is_rolled_back Enums.rolled_back = true
  is_rolled_back _ = false

  abbrev pub rollback_tx : Text → WalTransaction → M (Unit {0})
  rollback_tx tx_id tx =
      if is_rolled_back tx.status
      then pure tt
      else do restore_json tx.rollback_plan; finish tx_id Enums.rolled_back none

  unfoldable pub rollback : Text → M (Unit {0})
  unfolding restore_entries update_wal_status update_wal_extended
  rollback tx_id = do
    found ← query (get_wal_transaction tx_id)
    tx ← or_throw not_found found
    rollback_tx tx_id tx

  abbrev pub staging : FilePath
  staging = join (join store_path (codes "tmp")) (codes "cas_staging")

  abbrev pub clean_staging : Text → M (List TxRecoveryResult)
  clean_staging tx_id = do
    there ← gets (exists (join staging tx_id))
    if not there
        then pure []
        else do gone ← try (remove_dir_all (join staging tx_id)); pure (cleaned tx_id gone)

  -- The flat staging file of the deduplication.
  abbrev pub clean_legacy : Option Text → M (Unit {0})
  clean_legacy none = pure tt
  clean_legacy (some hash) = do
    there ← gets (exists (join staging (hash ++ codes ".tmp")))
    if there then (do try (remove_file (join staging (hash ++ codes ".tmp"))); pure tt) else pure tt

  abbrev crash_message : Text
  crash_message = codes "Recovered from crash: process was interrupted"

  abbrev pub recover_one : WalTransaction → M (List TxRecoveryResult)
  recover_one tx = do
    done ← clean_staging tx.tx_id
    clean_legacy tx.target_hash
    finish tx.tx_id Enums.failed (some crash_message)
    pure (done ++ record { tx_id = tx.tx_id; action = marked_failed } ∷ [])

  -- The loop of `recover`.
  unfoldable pub recover_all : List WalTransaction → M (List TxRecoveryResult)
  unfolding update_wal_status update_wal_extended
  recover_all [] = pure []
  recover_all (tx ∷ txs) = do
    some_results ← recover_one tx
    more ← recover_all txs
    pure (some_results ++ more)

  unfoldable pub recover : M (List TxRecoveryResult)
  unfolding recover_all
  recover = do incomplete ← query get_incomplete_wal_transactions; recover_all incomplete
