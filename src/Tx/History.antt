-- ===== src/Tx/History.antt =====
-- `list` and `cleanup_older_than` of crates/modeld-core/src/tx.rs.
use model_id.Base.{
  ℕ, ◌+◌, Bool, true, false, ◌&&◌, Option, none, some, List, [], ◌∷◌, ltb, if◌then◌else◌, nat_eq,
  ◌==◌,
}
use model_id.Base.Text.{Text}
use model_id.Base.Results.{out_of_range}
use model_id.Db.{WalTransaction}
use model_id.Db.Wal.{list_wal_transactions, delete_wal_transaction}
use model_id.Sys.{M, pure, now, ◌>>=◌, ◌>>◌}
use model_id.Sys.Tables.{query, execute}
use model_id.Tx.{
  OpType, dedup, unlink, gc, quarantine_cleanup, alias_rewrite, cas_promotion, hf_download_commit,
  store_migration, parse_str, TxStatus, pending, committed, failed, rolled_back, from_db, PathEntry,
  RollbackPlan, TxRecord, TxFilter, Serde, or_throw,
}

-- The order of the constructors, by which the derived equality compares.
abbrev pub op_discriminant : OpType → ℕ
op_discriminant dedup = 0
op_discriminant unlink = 1
op_discriminant gc = 2
op_discriminant quarantine_cleanup = 3
op_discriminant alias_rewrite = 4
op_discriminant cas_promotion = 5
op_discriminant hf_download_commit = 6
op_discriminant store_migration = 7

abbrev pub status_discriminant : TxStatus → ℕ
status_discriminant pending = 0
status_discriminant committed = 1
status_discriminant failed = 2
status_discriminant rolled_back = 3

abbrev pub status_admits : Option TxStatus → TxStatus → Bool
status_admits none s = true
status_admits (some t) s = status_discriminant s == status_discriminant t

abbrev pub op_admits : Option OpType → Option OpType → Bool
op_admits none o = true
op_admits (some t) none = false
op_admits (some t) (some o) = op_discriminant o == op_discriminant t

-- `as_deref().and_then(OpType::parse_str)`
abbrev pub op_of : Option Text → Option OpType
op_of none = none
op_of (some s) = parse_str s

abbrev pub or_empty {ℓ} : {A : Type ℓ} → Option (List A) → List A
or_empty none = []
or_empty (some xs) = xs

module _ (json : Serde) where
  abbrev pub paths_of : Option Text → List PathEntry
  paths_of none = []
  paths_of (some s) = or_empty (json.paths_from_str s)

  abbrev pub plan_or_empty : Option RollbackPlan → RollbackPlan
  plan_or_empty none = record { entries = [] }
  plan_or_empty (some p) = p

  abbrev pub plan_of_text : Option Text → RollbackPlan
  plan_of_text none = record { entries = [] }
  plan_of_text (some s) = plan_or_empty (json.plan_from_str s)

  abbrev pub record_of : WalTransaction → TxRecord
  record_of tx = record {
    tx_id = tx.tx_id;
    op_type = op_of tx.op_type;
    status = from_db tx.status;
    start_time = tx.created_at;
    end_time = tx.end_time;
    affected_paths = paths_of tx.affected_paths;
    rollback_plan = plan_of_text tx.rollback_plan;
    error_message = tx.error_message;
  }

  abbrev pub admits : TxFilter → WalTransaction → Bool
  admits filter tx =
      status_admits filter.status (from_db tx.status) && op_admits filter.op_type (op_of tx.op_type)

  -- The closure of `filter_map`.
  unfoldable pub filter_map : TxFilter → List WalTransaction → List TxRecord
  unfolding parse_str
  filter_map filter [] = []
  filter_map filter (tx ∷ txs) =
      if admits filter tx then record_of tx ∷ filter_map filter txs else filter_map filter txs

  unfoldable pub list : TxFilter → M (List TxRecord)
  unfolding filter_map
  list filter = do txs ← query list_wal_transactions; pure (filter_map filter txs)

-- `tx.created_at < now - duration`
abbrev pub is_older : ℕ → ℕ → WalTransaction → Bool
is_older at duration tx = ltb (tx.created_at + duration) at

-- The loop of `cleanup_older_than`.
unfoldable pub delete_older : (WalTransaction → Bool) → List WalTransaction → M ℕ
delete_older old [] = pure 0
delete_older old (tx ∷ txs) =
    let rest = delete_older old txs in
    if old tx
    then (do execute (delete_wal_transaction tx.tx_id); count ← rest; pure (count + 1))
    else rest

-- `from_std` is chrono's, which refuses a duration that is too long. That the subtraction panics where
-- the date leaves chrono's range is left out.
unfoldable pub cleanup_older_than : (ℕ → Option ℕ) → ℕ → M ℕ
unfolding delete_older
cleanup_older_than from_std duration = do
  at ← now
  span ← or_throw out_of_range (from_std duration)
  rows ← query list_wal_transactions
  delete_older (is_older at span) rows
