-- ===== src/Db/Wal.antt =====
-- The statements of db.rs on `wal_transactions`.
use model_id.Base.{
  ℕ, ◌+◌, Bool, true, false, Option, none, List, [], ◌∷◌, ◌++◌, any, find, select, if◌then◌else◌,
  list_eq, nat_eq, ◌==◌,
}
use model_id.Base.Text.{Text}
use model_id.Base.Results.{Result, ok, err, unique_violation}
use model_id.Db.{Database, WalTransaction}
use model_id.Db.Enums.{TransactionStatus, pending, copied}
use model_id.Db.Models.{coalesce}
use model_id.Db.Table.{update_where, delete_where, order_asc, order_desc}

abbrev pub has_id : Text → WalTransaction → Bool
has_id tx_id tx = tx.tx_id == tx_id

-- The row that the INSERT makes.
abbrev pub new_tx :
    ℕ
    → ℕ
    → Text
    → Text
    → TransactionStatus
    → Option Text
    → Option Text
    → Option Text
    → WalTransaction
new_tx id now tx_id operation status source_path target_hash metadata = record {
  id = id;
  tx_id = tx_id;
  operation = operation;
  status = status;
  source_path = source_path;
  target_hash = target_hash;
  metadata = metadata;
  created_at = now;
  updated_at = now;
  op_type = none;
  affected_paths = none;
  rollback_plan = none;
  end_time = none;
  error_message = none;
}

unfoldable pub insert_wal_transaction :
    ℕ
    → Text
    → Text
    → TransactionStatus
    → Option Text
    → Option Text
    → Option Text
    → Database
    → Result (ℕ × Database)
insert_wal_transaction now tx_id operation status source_path target_hash metadata db =
    if any (has_id tx_id) db.wal_transactions
    then err unique_violation
    else ok (
      db.wal_seq + 1,
      record db {
        wal_transactions =
            db.wal_transactions
            ++ new_tx (db.wal_seq + 1) now tx_id operation status source_path target_hash metadata
              ∷ [];
        wal_seq = db.wal_seq + 1;
        last_insert_rowid = db.wal_seq + 1;
      },
    )

abbrev pub set_status : ℕ → TransactionStatus → WalTransaction → WalTransaction
set_status now status tx = record tx { status = status; updated_at = now }

unfoldable pub update_wal_status : ℕ → Text → TransactionStatus → Database → Database
update_wal_status now tx_id status db = record db {
  wal_transactions = update_where (has_id tx_id) (set_status now status) db.wal_transactions;
}

unfoldable pub get_wal_transaction : Text → Database → Option WalTransaction
get_wal_transaction tx_id db = find (has_id tx_id) db.wal_transactions

-- `status IN ('pending', 'copied')`
abbrev pub is_incomplete : WalTransaction → Bool
is_incomplete tx = elim tx.status [ pending ↦ true | copied ↦ true | other ↦ false ]

unfoldable pub get_incomplete_wal_transactions : Database → List WalTransaction
unfolding order_asc
get_incomplete_wal_transactions db =
    order_asc (λ (tx : WalTransaction). tx.created_at) (select is_incomplete db.wal_transactions)

unfoldable pub delete_wal_transaction : Text → Database → Database
delete_wal_transaction tx_id db = record db {
  wal_transactions = delete_where (has_id tx_id) db.wal_transactions;
}

-- `COALESCE` keeps each column for which `none` is given.
abbrev pub extend :
    ℕ
    → Option Text
    → Option Text
    → Option Text
    → Option ℕ
    → Option Text
    → WalTransaction
    → WalTransaction
extend now op_type affected_paths rollback_plan end_time error_message tx = record tx {
  op_type = coalesce op_type tx.op_type;
  affected_paths = coalesce affected_paths tx.affected_paths;
  rollback_plan = coalesce rollback_plan tx.rollback_plan;
  end_time = coalesce end_time tx.end_time;
  error_message = coalesce error_message tx.error_message;
  updated_at = now;
}

unfoldable pub update_wal_extended :
    ℕ
    → Text
    → Option Text
    → Option Text
    → Option Text
    → Option ℕ
    → Option Text
    → Database
    → Database
update_wal_extended now tx_id op_type affected_paths rollback_plan end_time error_message db =
    record db {
      wal_transactions =
          update_where (has_id tx_id)
            (extend now op_type affected_paths rollback_plan end_time error_message)
            db.wal_transactions;
    }

unfoldable pub list_wal_transactions : Database → List WalTransaction
unfolding order_desc
list_wal_transactions db = order_desc (λ (tx : WalTransaction). tx.created_at) db.wal_transactions
