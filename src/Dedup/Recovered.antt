-- ===== src/Dedup/Recovered.antt =====
-- What `recover_incomplete_transactions` (crates/modeld-core/src/dedup.rs) leaves in the log, whatever
-- calls fail.
use model_id.Base.{
  ℕ, ◌≡◌, refl, subst, sym, ap, All, All-mono, true, Option, List, [], ◌∷◌, arith, any, length,
  list_eq, nat_eq,
}
use model_id.Base.Text.{Text}
use model_id.Db.{WalTransaction}
use model_id.Db.Wal
use model_id.Db.Wal.{is_incomplete, has_id, get_incomplete_wal_transactions}
use model_id.Db.Enums
use model_id.Db.Enums.{AliasType, TransactionStatus, original, reference_only, user}
use model_id.Tx.{update_wal_status}
use model_id.Tx.Recovery.{
  Covers, update_wal_status-Covers, start-Covers, none_incomplete, delete-Covers,
}
use model_id.Links.{LinkCapability}
use model_id.Dedup.{DedupEngine}
use model_id.Dedup.Recover.{
  recover_copied, recover_pending, recover_by, recover_each, recover_incomplete_transactions,
}
use model_id.Sys.{FilePath, World}
use model_id.Sys.Tables.{query, execute}
use model_id.Sys.Apart.{execute-Ends}
use model_id.Sys.Results.{Ends, Ends-pure, Ends-bind, Ends-mono, Keeps-then, Keeps-Ends, query-Ends}
use model_id.Dedup.Logged.{short_id-Keeps, recover_copied-Keeps, recover_pending-Keeps}

-- Each incomplete row has the id of one of the list.
abbrev IsCovered : List WalTransaction → List WalTransaction → Type 0
IsCovered rest rows =
    All (λ (x : WalTransaction). is_incomplete x ≡ true → any (has_id x.tx_id) rest ≡ true) rows

module _ (device : FilePath → ℕ) (capability : LinkCapability) (path_of : Text → FilePath)
    (texts_from_str : Text → Option (List Text)) (e : DedupEngine) where
  delete-Ends :
      (tx : WalTransaction) (rest : List WalTransaction) (w : World)
      → Covers (tx ∷ rest) w.db
      → Ends
          (λ _ v. Covers rest v.db)
          (λ _. Unit {0})
          (execute (Wal.delete_wal_transaction tx.tx_id) w)
  delete-Ends tx rest w h =
      Ends-mono (execute-Ends (Wal.delete_wal_transaction tx.tx_id) w)
        (λ _ v (d, _). subst (Covers rest) (sym d) (delete-Covers tx rest w.db h)) (λ v _. tt)

  recover_by-Covers :
      (tx : WalTransaction) (rest : List WalTransaction) (status : TransactionStatus) (w : World)
      → Covers (tx ∷ rest) w.db
      → Ends
          (λ _ v. Covers rest v.db)
          (λ _. Unit {0})
          (recover_by device capability path_of texts_from_str e tx status w)
  recover_by-Covers tx rest Enums.pending w h =
      Keeps-then (recover_pending device capability path_of texts_from_str e tx.target_hash) _ w
        (recover_pending-Keeps (IsCovered (tx ∷ rest)) device capability path_of texts_from_str e
          tx.target_hash)
        h
        (λ _ v k.
          Ends-bind (update_wal_status tx.tx_id Enums.failed) _ v
            (update_wal_status-Covers Enums.failed tx rest v (λ at x. refl) k)
            (λ _ u l.
              Ends-mono
                (Keeps-Ends _ u (short_id-Keeps (IsCovered rest) device capability tx.tx_id) l)
                (λ _ x m. m) (λ x _. tt))
            (λ u _. tt))
        (λ v _. tt)
  recover_by-Covers tx rest Enums.copied w h =
      Keeps-then
        (recover_copied device capability path_of texts_from_str e tx tx.target_hash tx.source_path)
        _ w
        (recover_copied-Keeps (IsCovered (tx ∷ rest)) device capability path_of texts_from_str e tx
          tx.target_hash tx.source_path)
        h
        (λ _ v k.
          Ends-bind (update_wal_status tx.tx_id Enums.committed) _ v
            (update_wal_status-Covers Enums.committed tx rest v (λ at x. refl) k)
            (λ _ u l.
              delete-Ends tx rest u (All-mono (λ x f i. more x (f i)) u.db.wal_transactions l))
            (λ u _. tt))
        (λ v _. tt)
    where
      more :
          (x : WalTransaction)
          → any (has_id x.tx_id) rest ≡ true
          → any (has_id x.tx_id) (tx ∷ rest) ≡ true
      more x k = ground (arith, k)
  recover_by-Covers tx rest Enums.committed w h = delete-Ends tx rest w h
  recover_by-Covers tx rest Enums.failed w h = delete-Ends tx rest w h
  recover_by-Covers tx rest Enums.rolled_back w h = delete-Ends tx rest w h

  recover_each-Covers :
      (txs : List WalTransaction) (w : World)
      → Covers txs w.db
      → Ends
          (λ _ v. Covers [] v.db)
          (λ _. Unit {0})
          (recover_each device capability path_of texts_from_str e txs w)
  unfolding recover_each
  recover_each-Covers [] w h = Ends-pure tt w h
  recover_each-Covers (tx ∷ txs) w h =
      Ends-bind (recover_by device capability path_of texts_from_str e tx tx.status) _ w
        (recover_by-Covers tx txs tx.status w h) (λ _ v k. recover_each-Covers txs v k) (λ v _. tt)

  -- If `recover_incomplete_transactions` returns, whatever files it could not move, link or remove,
  -- its number is that of the incomplete transactions there were, and no transaction of the log is
  -- pending or copied any more.
  pub recover_incomplete_transactions-none_incomplete :
      (w : World)
      → Ends
          (λ n v.
            (n ≡ length (get_incomplete_wal_transactions w.db))
            × (get_incomplete_wal_transactions v.db ≡ []))
          (λ _. Unit {0})
          (recover_incomplete_transactions device capability path_of texts_from_str e w)
  unfolding recover_incomplete_transactions
  recover_incomplete_transactions-none_incomplete w =
      Ends-bind (query get_incomplete_wal_transactions) _ w
        (query-Ends get_incomplete_wal_transactions w)
        (λ txs v (same, d, _).
          Ends-bind (recover_each device capability path_of texts_from_str e txs) _ v
            (recover_each-Covers txs v (rw (same, d) (start-Covers w.db)))
            (λ _ u h. Ends-pure _ u (ap length same, none_incomplete u.db h)) (λ u _. tt))
        (λ v _. tt)
