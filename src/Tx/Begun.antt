-- ===== src/Tx/Begun.antt =====
-- The row that `begin` (crates/modeld-core/src/tx.rs) makes.
use mathlib.Core.Option
use model_id.Base.{
  ℕ, ◌+◌, ◌≡◌, refl, ap, sym, subst, ◌∙◌, Bool, true, false, none, some, [], ◌∷◌, ◌++◌, any, find,
  if◌then◌else◌, list_eq, nat_eq, ==_refl,
}
use model_id.Base.Text.{Text}
use model_id.Base.Results.{ok, err, parse_error, unique_violation}
use model_id.Db.{Database, WalTransaction}
use model_id.Db.Enums.{TransactionStatus}
use model_id.Db.Enums
use model_id.Db.Table.{update_where, find-update_where, find-append_fresh}
use model_id.Db.Wal
use model_id.Db.Wal.{has_id, new_tx, set_status, extend, get_wal_transaction}
use model_id.Sys.{FilePath, World, now}
use model_id.Sys.Apart.{execute-Ends, attempt-Ends}
use model_id.Sys.Keeps.{Keeps-now}
use model_id.Sys.Results.{Ends, Ends-pure, Ends-bind, Ends-mono, Ends-and, any_end}
use model_id.Tx.{
  as_str, Serde, RoundTrips, TxPlan, or_throw, insert_wal_transaction, begin, update_wal_extended,
}
use model_id.Tx.Rollback.{plan_of}
use model_id.Tx.Rows.{or_throw-Ends}

module _ (json : Serde) (store_path : FilePath) where
  -- The row that `begin` makes: pending, with the operation, and with the plan it was given.
  abbrev pub Begun : Text → TxPlan → Database → Type 0
  Begun tx_id plan db =
      (r : WalTransaction) × (get_wal_transaction tx_id db ≡ some r)
      × (r.status ≡ Enums.pending)
      × (r.op_type ≡ some (as_str plan.op_type))
      × (plan_of json (some r) ≡ some plan.rollback_plan)

  written_Begun :
      (tx_id : Text) (plan : TxPlan) (at t seq : ℕ) (db db' : Database)
      (affected rollback_text : Text)
      → RoundTrips json
      → json.plan_to_string plan.rollback_plan ≡ some rollback_text
      → Wal.insert_wal_transaction t tx_id (as_str plan.op_type) Enums.pending none none none db
        ≡ ok (seq, db')
      → Begun tx_id plan (
          Wal.update_wal_extended at tx_id
            (some (as_str plan.op_type))
            (some affected)
            (some rollback_text)
            none
            none
            db')
  unfolding Wal.insert_wal_transaction Wal.update_wal_extended get_wal_transaction
  written_Begun tx_id plan at t seq db db' affected rollback_text trips e inserted =
      by_test (any (has_id tx_id) db.wal_transactions) refl inserted
    where
      row : WalTransaction
      row = new_tx (db.wal_seq + 1) t tx_id (as_str plan.op_type) Enums.pending none none none

      inserted_db : ℕ × Database
      inserted_db = (
        db.wal_seq + 1,
        record db {
          wal_transactions = db.wal_transactions ++ row ∷ [];
          wal_seq = db.wal_seq + 1;
          last_insert_rowid = db.wal_seq + 1;
        },
      )

      rows_of : {a b : ℕ × Database} → ok a ≡ ok b → b.1.wal_transactions ≡ a.1.wal_transactions
      rows_of k = cc

      by_test :
          (b : Bool)
          → any (has_id tx_id) db.wal_transactions ≡ b
          → (if b then err unique_violation else ok inserted_db) ≡ ok (seq, db')
          → Begun tx_id plan (
              Wal.update_wal_extended at tx_id
                (some (as_str plan.op_type))
                (some affected)
                (some rollback_text)
                none
                none
                db')
      by_test true n k = cc
      by_test false n k = (
        extend at (some (as_str plan.op_type)) (some affected) (some rollback_text) none none row,
        ap (λ rows. find (has_id tx_id) (update_where (has_id tx_id) change rows)) (rows_of k)
            ∙ find-update_where (has_id tx_id) change (db.wal_transactions ++ row ∷ []) (λ x. refl)
            ∙ ap (Option.map change)
                (find-append_fresh (has_id tx_id) db.wal_transactions row n (==_refl tx_id)),
        refl,
        refl,
        trips.plan_from-to plan.rollback_plan rollback_text e,
      )
        where
          change : WalTransaction → WalTransaction
          change =
              extend at (some (as_str plan.op_type)) (some affected) (some rollback_text) none none

  inserted_row :
      (tx_id : Text) (plan : TxPlan) (w : World)
      → Ends
          (λ seq v.
            (t : ℕ) × (db : Database) × (Wal.insert_wal_transaction t tx_id
                (as_str plan.op_type)
                Enums.pending
                none
                none
                none
                db
              ≡ ok (seq, v.db)))
          (λ _. Unit)
          (insert_wal_transaction tx_id (as_str plan.op_type) Enums.pending w)
  unfolding insert_wal_transaction
  inserted_row tx_id plan w =
      Ends-bind now _ w (any_end now w)
        (λ at v _. Ends-mono (attempt-Ends _ v) (λ seq u k. (at, v.db, k)) (λ u _. tt)) (λ v _. tt)

  -- If `begin` returns, the log has a row of the transaction that is pending and whose rollback plan
  -- reads back as the one it was given; the JSON of plans reads back what it wrote.
  pub begin-Begun :
      (tx_id : Text) (plan : TxPlan) (w : World)
      → RoundTrips json
      → Ends
          (λ id v. (id ≡ tx_id) × Begun tx_id plan v.db)
          (λ _. Unit)
          (begin json store_path tx_id plan w)
  unfolding begin insert_wal_transaction update_wal_extended
  begin-Begun tx_id plan w trips =
      Ends-bind (or_throw parse_error (json.paths_to_string plan.affected_paths)) _ w
        (any_end (or_throw parse_error (json.paths_to_string plan.affected_paths)) w)
        (λ affected w1 _.
          Ends-bind (or_throw parse_error (json.plan_to_string plan.rollback_plan)) _ w1
            (or_throw-Ends parse_error _ w1)
            (λ rollback_text w2 (e, _).
              Ends-bind (insert_wal_transaction tx_id (as_str plan.op_type) Enums.pending) _ w2
                (inserted_row tx_id plan w2)
                (λ seq w3 (t, db, inserted).
                  Ends-bind (update_wal_extended tx_id _ _ _ none none) _ w3
                    (Ends-bind now _ w3
                      (Ends-and now w3 (any_end now w3)
                        (Keeps-now
                          {P = λ _ db'.
                            Wal.insert_wal_transaction t tx_id (as_str plan.op_type) Enums.pending
                              none none none db
                            ≡ ok (seq, db')})
                        inserted)
                      (λ at w4 (_, k).
                        Ends-mono
                          (execute-Ends
                            (Wal.update_wal_extended at tx_id (some (as_str plan.op_type))
                              (some affected) (some rollback_text) none none)
                            w4)
                          (λ _ v (d, _). subst (Begun tx_id plan) (sym d) (
                            written_Begun tx_id plan at t seq db w4.db affected rollback_text trips
                              e k))
                          (λ v _. tt))
                      (λ v _. tt))
                    (λ _ w5 b. Ends-pure tx_id w5 (refl, b)) (λ v _. tt))
                (λ v _. tt))
            (λ v _. tt))
        (λ v _. tt)
