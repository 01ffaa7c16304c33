-- ===== src/Tx/Live.antt =====
-- When the operations of crates/modeld-core/src/tx.rs return.
use model_id.Base.{◌≡◌, not, Option, none, some, List, [], ◌∷◌, ◌++◌, list_eq, nat_eq}
use model_id.Base.Text.{Text}
use model_id.Base.Results.{ok}
use model_id.Db.{WalTransaction}
use model_id.Db.Enums.{TransactionStatus}
use model_id.Db.Wal.{get_incomplete_wal_transactions}
use model_id.Sys.{FilePath, World, pure}
use model_id.Sys.Returns.{Returns}
use model_id.Sys.Runs.{
  Runs, Runs-pure, Runs-gets, Runs-query, Runs-bind, Runs-if, Runs-now, Runs-execute,
  Runs-remove_file, Runs-remove_dir_all,
}
use model_id.Tx.{
  Serde, TxRecoveryResult, cleaned, clean_staging, clean_legacy, finish, update_wal_status,
  update_wal_extended, recover_all, recover,
}
use model_id.Tx.Recovery.{recover-none_incomplete}

module _ (json : Serde) (store_path : FilePath) where
  finish-Runs :
      (tx_id : Text) (status : TransactionStatus) (message : Option Text)
      → Runs (finish tx_id status message)
  unfolding update_wal_status update_wal_extended
  finish-Runs tx_id status message = Runs-bind _ _ Runs-now λ end_time.
      Runs-bind _ _ (Runs-bind _ _ Runs-now λ at. Runs-execute _)
        λ _. Runs-bind _ _ Runs-now λ at. Runs-execute _

  clean_staging-Runs : (tx_id : Text) → Runs (clean_staging json store_path tx_id)
  clean_staging-Runs tx_id = Runs-bind _ _ (Runs-gets _) λ there.
      Runs-if (not there) (pure []) _ (Runs-pure [])
        (Runs-bind _ _ (Runs-remove_dir_all _) λ gone. Runs-pure (cleaned tx_id gone))

  clean_legacy-Runs : (hash : Option Text) → Runs (clean_legacy json store_path hash)
  clean_legacy-Runs none = Runs-pure tt
  clean_legacy-Runs (some hash) = Runs-bind _ _ (Runs-gets _) λ there.
      Runs-if there _ (pure tt) (Runs-bind _ _ (Runs-remove_file _) λ _. Runs-pure tt)
        (Runs-pure tt)

  recover_all-Runs : (txs : List WalTransaction) → Runs (recover_all json store_path txs)
  unfolding recover_all
  recover_all-Runs [] = Runs-pure []
  recover_all-Runs (tx ∷ txs) =
      Runs-bind _ _
        (Runs-bind _ _ (clean_staging-Runs tx.tx_id) λ done.
          Runs-bind _ _ (clean_legacy-Runs tx.target_hash)
            λ _. Runs-bind _ _ (finish-Runs tx.tx_id _ _) λ _. Runs-pure _)
        λ found. Runs-bind _ _ (recover_all-Runs txs) λ more. Runs-pure (found ++ more)

  -- `recover` returns if no call fails, and then no transaction of the log is pending or copied.
  pub recover-Returns :
      (w : World)
      → w.faults ≡ []
      → ((rs : List TxRecoveryResult) × ((recover json store_path w).0 ≡ ok rs))
        × (get_incomplete_wal_transactions (recover json store_path w).1.db ≡ [])
  unfolding recover
  recover-Returns w calm = (
    (run.value, run.is_ok),
    (recover-none_incomplete json store_path w).on_ok run.value run.is_ok,
  )
    where
      all_runs : Runs (recover json store_path)
      all_runs = Runs-bind _ _ (Runs-query _) λ txs. recover_all-Runs txs

      run : Returns (λ _ v. v.faults ≡ []) (recover json store_path w)
      run = all_runs.runs w calm
