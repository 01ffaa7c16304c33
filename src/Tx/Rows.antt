-- ===== src/Tx/Rows.antt =====
-- What the operations of crates/modeld-core/src/tx.rs leave in the row of a transaction.
use mathlib.Core.Option
use model_id.Base.{
  ℕ, ◌≡◌, refl, ap, sym, subst, ◌∙◌, Option, none, some, find, if◌then◌else◌, list_eq, nat_eq,
}
use model_id.Base.Text.{Text}
use model_id.Base.Results.{Error, not_found}
use model_id.Db.{Database, WalTransaction}
use model_id.Db.Enums.{TransactionStatus}
use model_id.Db.Enums
use model_id.Db.Table.{find-update_where}
use model_id.Db.Wal
use model_id.Db.Wal.{has_id, new_tx, set_status, extend, get_wal_transaction}
use model_id.Sys.{FilePath, World, pure, now, ◌>>◌}
use model_id.Sys.Tables.{query}
use model_id.Sys.Apart.{execute-Ends, Ends-either, query-Keeps}
use model_id.Sys.Keeps.{Keeps-now}
use model_id.Sys.Results.{
  Ends, Ends-pure, Ends-throw, Ends-bind, Ends-mono, Ends-and, query-Ends, any_end,
}
use model_id.Tx.{
  Serde, or_throw, finish, update_wal_status, update_wal_extended, rollback, rollback_tx,
  restore_entries, is_rolled_back, restore_json,
}

-- The row of the transaction, if there is one, has this status.
abbrev pub HasStatus : Text → TransactionStatus → Database → Type 0
HasStatus tx_id status db =
    (r : WalTransaction) → get_wal_transaction tx_id db ≡ some r → r.status ≡ status

same : {a b : WalTransaction} → some a ≡ some b → a ≡ b
same k = cc

mapped-status :
    (f : WalTransaction → WalTransaction) (status : TransactionStatus) (o : Option WalTransaction)
    (r : WalTransaction)
    → ((x : WalTransaction) → o ≡ some x → (f x).status ≡ status)
    → Option.map f o ≡ some r
    → r.status ≡ status
mapped-status f status none r h e = cc
mapped-status f status (some x) r h e =
    ap (λ (y : WalTransaction). y.status) (sym (same e)) ∙ h x refl

update_wal_status-HasStatus :
    (at : ℕ) (tx_id : Text) (status : TransactionStatus) (db : Database)
    → HasStatus tx_id status (Wal.update_wal_status at tx_id status db)
unfolding Wal.update_wal_status get_wal_transaction
update_wal_status-HasStatus at tx_id status db r e =
    mapped-status (set_status at status) status (find (has_id tx_id) db.wal_transactions) r
      (λ x _. refl)
      (sym (find-update_where (has_id tx_id) (set_status at status) db.wal_transactions (λ x. refl))
        ∙ e)

update_wal_extended-HasStatus :
    (at : ℕ) (tx_id : Text) (o a p : Option Text) (e : Option ℕ) (m : Option Text)
    (status : TransactionStatus) (db : Database)
    → HasStatus tx_id status db
    → HasStatus tx_id status (Wal.update_wal_extended at tx_id o a p e m db)
unfolding Wal.update_wal_extended get_wal_transaction
update_wal_extended-HasStatus at tx_id o a p e m status db h r k =
    mapped-status (extend at o a p e m) status (find (has_id tx_id) db.wal_transactions) r h (
      sym (find-update_where (has_id tx_id) (extend at o a p e m) db.wal_transactions (λ x. refl))
      ∙ k)

pub finish-HasStatus :
    (tx_id : Text) (status : TransactionStatus) (message : Option Text) (w : World)
    → Ends (λ _ v. HasStatus tx_id status v.db) (λ _. Unit) (finish tx_id status message w)
unfolding update_wal_status update_wal_extended
finish-HasStatus tx_id status message w =
    Ends-bind now _ w (any_end now w)
      (λ end_time w1 _.
        Ends-bind (update_wal_status tx_id status) _ w1
          (Ends-bind now _ w1 (any_end now w1)
            (λ at w2 _.
              Ends-mono (execute-Ends (Wal.update_wal_status at tx_id status) w2)
                (λ _ v (d, _).
                  subst (HasStatus tx_id status) (sym d)
                    (update_wal_status-HasStatus at tx_id status w2.db))
                (λ v _. tt))
            (λ v _. tt))
          (λ _ w3 h.
            Ends-bind now _ w3
              (Ends-and now w3 (any_end now w3) (Keeps-now {P = λ _ db. HasStatus tx_id status db})
                h)
              (λ at w4 (_, k).
                Ends-mono
                  (execute-Ends
                    (Wal.update_wal_extended at tx_id none none none (some end_time) message) w4)
                  (λ _ v (d, _). subst (HasStatus tx_id status) (sym d) (
                    update_wal_extended-HasStatus at tx_id none none none (some end_time) message
                      status w4.db k))
                  (λ v _. tt))
              (λ v _. tt))
          (λ v _. tt))
      (λ v _. tt)

pub or_throw-Ends :
    {A : Type 0} (e : Error) (o : Option A) (w : World)
    → Ends (λ a v. (o ≡ some a) × (v ≡ w)) (λ v. v ≡ w) (or_throw e o w)
or_throw-Ends e none w = Ends-throw e w refl
or_throw-Ends e (some a) w = Ends-pure a w (refl, refl)

module _ (json : Serde) (store_path : FilePath) where
  rolled_back_twice :
      (tx_id : Text) (v : World)
      → HasStatus tx_id Enums.rolled_back v.db
      → ((rollback json store_path tx_id v).1.fs ≡ v.fs)
        × ((rollback json store_path tx_id v).1.db ≡ v.db)
  unfolding rollback restore_entries update_wal_status update_wal_extended
  rolled_back_twice tx_id v h = Ends-either (rollback json store_path tx_id v) (
      Ends-bind (query (get_wal_transaction tx_id)) _ v
        (Ends-and (query (get_wal_transaction tx_id)) v (query-Ends (get_wal_transaction tx_id) v)
          (query-Keeps {P = λ fs db. (fs ≡ v.fs) × (db ≡ v.db)} _) (refl, refl))
        (λ found u ((e, _, _), same).
          Ends-bind (or_throw not_found found) _ u (or_throw-Ends not_found found u)
            (λ tx x (k, at).
              by_status tx (h tx (sym e ∙ k)) x
                (subst (λ (y : World). (y.fs ≡ v.fs) × (y.db ≡ v.db)) (sym at) same))
            (λ x at. subst (λ (y : World). (y.fs ≡ v.fs) × (y.db ≡ v.db)) (sym at) same))
        (λ u (_, same). same))
    where
      by_status :
          (tx : WalTransaction)
          → tx.status ≡ Enums.rolled_back
          → (x : World) → (x.fs ≡ v.fs) × (x.db ≡ v.db)
          → Ends
              (λ _ u. (u.fs ≡ v.fs) × (u.db ≡ v.db))
              (λ u. (u.fs ≡ v.fs) × (u.db ≡ v.db))
              (rollback_tx json store_path tx_id tx x)
      by_status tx e x same = rw (ap (is_rolled_back json store_path) e) (Ends-pure tt x same)

  rollback-HasStatus :
      (tx_id : Text) (w : World)
      → Ends
          (λ _ v. HasStatus tx_id Enums.rolled_back v.db)
          (λ _. Unit)
          (rollback json store_path tx_id w)
  unfolding rollback restore_entries update_wal_status update_wal_extended
  rollback-HasStatus tx_id w =
      Ends-bind (query (get_wal_transaction tx_id)) _ w (query-Ends (get_wal_transaction tx_id) w)
        (λ found u (e, d, _).
          Ends-bind (or_throw not_found found) _ u (or_throw-Ends not_found found u)
            (λ tx x (k, at). by_status tx tx.status refl x λ r q.
              ap (λ (y : WalTransaction). y.status)
                (same (
                  sym q
                  ∙ ap (λ (y : World). get_wal_transaction tx_id y.db) at
                  ∙ ap (get_wal_transaction tx_id) d
                  ∙ sym e
                  ∙ k)))
            (λ x _. tt))
        (λ u _. tt)
    where
      go :
          (tx : WalTransaction) (x : World)
          → Ends {A = Unit {0}}
              (λ _ u. HasStatus tx_id Enums.rolled_back u.db)
              (λ _. Unit {0})
              ((restore_json json store_path tx.rollback_plan
                  >> finish tx_id Enums.rolled_back none)
                x)
      go tx x =
          Ends-bind (restore_json json store_path tx.rollback_plan) _ x
            (any_end (restore_json json store_path tx.rollback_plan) x)
            (λ _ y _. finish-HasStatus tx_id Enums.rolled_back none y) (λ y _. tt)

      by_status :
          (tx : WalTransaction) (s : TransactionStatus)
          → tx.status ≡ s
          → (x : World)
          → ((r : WalTransaction) → get_wal_transaction tx_id x.db ≡ some r → r.status ≡ tx.status)
          → Ends {A = Unit {0}}
              (λ _ u. HasStatus tx_id Enums.rolled_back u.db)
              (λ _. Unit {0})
              ((if is_rolled_back json store_path s then pure tt else do
                restore_json json store_path tx.rollback_plan
                finish tx_id Enums.rolled_back none)
                x)
      by_status tx Enums.rolled_back e x h = Ends-pure tt x (λ r q. h r q ∙ e)
      by_status tx Enums.pending e x h = go tx x
      by_status tx Enums.copied e x h = go tx x
      by_status tx Enums.committed e x h = go tx x
      by_status tx Enums.failed e x h = go tx x

  -- After a rollback that returned, a further rollback of the transaction changes neither the files
  -- nor the database, whatever calls fail in the one or the other.
  pub rollback-rollback :
      (tx_id : Text) (w : World)
      → Ends
          (λ _ v.
            ((rollback json store_path tx_id v).1.fs ≡ v.fs)
            × ((rollback json store_path tx_id v).1.db ≡ v.db))
          (λ _. Unit)
          (rollback json store_path tx_id w)
  rollback-rollback tx_id w =
      Ends-mono (rollback-HasStatus tx_id w) (λ _ v h. rolled_back_twice tx_id v h) (λ v _. tt)
