-- ===== src/Tx/Recovery.antt =====
-- What `recover` (crates/modeld-core/src/tx.rs) leaves in the log, whatever calls fail.
use model_id.Base.{
  ℕ, ◌≡◌, refl, sym, subst, not, ◌∙◌, Bool, true, false, Option, none, some, List, [], ◌∷◌, arith,
  any, select, All, All-mono, if◌then◌else◌, list_eq, nat_eq, ==_iff, ==_refl,
}
use model_id.Base.Text.{Text}
use model_id.Db.{Database, WalTransaction}
use model_id.Db.Enums.{TransactionStatus}
use model_id.Db.Enums
use model_id.Db.Table.{delete_where, All-update_where, order_asc}
use model_id.Db.Order.{any-order_asc}
use model_id.Db.Wal
use model_id.Db.Wal.{has_id, is_incomplete, set_status, extend, get_incomplete_wal_transactions}
use model_id.Sys.{FilePath, World, pure, now}
use model_id.Sys.Tables.{query}
use model_id.Sys.Apart.{remove_file-Keeps_db, remove_dir_all-Keeps_db, execute-Ends}
use model_id.Sys.Keeps.{Keeps, Keeps-bind, Keeps-if, Keeps-pure, Keeps-gets, Keeps-try, Keeps-now}
use model_id.Sys.Results.{Ends, Ends-pure, Ends-bind, Ends-mono, Keeps-then, query-Ends}
use model_id.Tx.{
  Serde, cleaned, clean_staging, clean_legacy, finish, update_wal_status, update_wal_extended,
  recover_one, recover_all, recover,
}

-- Each incomplete transaction of the log has the id of one of the list.
abbrev pub Covers : List WalTransaction → Database → Type 0
Covers rest db =
    All (λ (x : WalTransaction). is_incomplete x ≡ true → any (has_id x.tx_id) rest ≡ true)
      db.wal_transactions

covered :
    (rows : List WalTransaction)
    → All
        (λ (x : WalTransaction).
          is_incomplete x ≡ true → any (has_id x.tx_id) (select is_incomplete rows) ≡ true)
        rows
covered [] = tt
covered (x ∷ rows) = (
  λ e. rw e (rw (==_refl x.tx_id) refl),
  All-mono (λ y h e. more (is_incomplete x) (has_id y.tx_id) (h e)) rows (covered rows),
)
  where
    more :
        (b : Bool) (p : WalTransaction → Bool)
        → any p (select is_incomplete rows) ≡ true
        → any p (if b then x ∷ select is_incomplete rows else select is_incomplete rows) ≡ true
    more true p h = ground arith
    more false p h = h

pub start-Covers : (db : Database) → Covers (get_incomplete_wal_transactions db) db
unfolding get_incomplete_wal_transactions
start-Covers db =
    All-mono
      (λ x h e. any-order_asc (has_id x.tx_id) _ (select is_incomplete db.wal_transactions) ∙ h e)
      db.wal_transactions (covered db.wal_transactions)

pub none_incomplete : (db : Database) → Covers [] db → get_incomplete_wal_transactions db ≡ []
unfolding get_incomplete_wal_transactions order_asc
none_incomplete db h = rw (none_selected db.wal_transactions h) refl
  where
    none_selected :
        (rows : List WalTransaction)
        → All (λ (x : WalTransaction). is_incomplete x ≡ true → false ≡ true) rows
        → select is_incomplete rows ≡ []
    none_selected [] h = refl
    none_selected (x ∷ rows) (n, ns) = ground (arith, none_selected rows ns)

-- A transaction that gets a final status is off the list.
pub status-Covers :
    (now : ℕ) (status : TransactionStatus) (tx : WalTransaction) (rest : List WalTransaction)
    (db : Database)
    → ((x : WalTransaction) → is_incomplete (set_status now status x) ≡ false)
    → Covers (tx ∷ rest) db
    → Covers rest (Wal.update_wal_status now tx.tx_id status db)
unfolding Wal.update_wal_status
status-Covers now status tx rest db final h =
    All-update_where _ _ (has_id tx.tx_id) (set_status now status) db.wal_transactions
      (λ x e k. λ i. ground (arith, i, final x))
      (λ x e k i. ground (arith, k i, ==_iff x.tx_id tx.tx_id, ==_iff tx.tx_id x.tx_id)) h

-- So is one whose row is deleted.
pub delete-Covers :
    (tx : WalTransaction) (rest : List WalTransaction) (db : Database)
    → Covers (tx ∷ rest) db
    → Covers rest (Wal.delete_wal_transaction tx.tx_id db)
unfolding Wal.delete_wal_transaction delete_where
delete-Covers tx rest db h = deleted db.wal_transactions h
  where
    deleted :
        (rows : List WalTransaction)
        → All
            (λ (x : WalTransaction).
              is_incomplete x ≡ true → any (has_id x.tx_id) (tx ∷ rest) ≡ true)
            rows
        → All
            (λ (x : WalTransaction). is_incomplete x ≡ true → any (has_id x.tx_id) rest ≡ true)
            (delete_where (has_id tx.tx_id) rows)
    deleted [] h = tt
    deleted (x ∷ rows) (k, ks) = by_id (has_id tx.tx_id x) refl (deleted rows ks)
      where
        by_id :
            (b : Bool)
            → has_id tx.tx_id x ≡ b
            → All
                (λ (x : WalTransaction). is_incomplete x ≡ true → any (has_id x.tx_id) rest ≡ true)
                (delete_where (has_id tx.tx_id) rows)
            → All
                (λ (x : WalTransaction). is_incomplete x ≡ true → any (has_id x.tx_id) rest ≡ true)
                (if b
                  then delete_where (has_id tx.tx_id) rows
                  else x ∷ delete_where (has_id tx.tx_id) rows)
        by_id true e ih = ih
        by_id false e ih =
            (λ i. ground (arith, k i, e, ==_iff x.tx_id tx.tx_id, ==_iff tx.tx_id x.tx_id), ih)

extend-Covers :
    (now : ℕ) (tx_id : Text) (o a r : Option Text) (e : Option ℕ) (m : Option Text)
    (rest : List WalTransaction) (db : Database)
    → Covers rest db
    → Covers rest (Wal.update_wal_extended now tx_id o a r e m db)
unfolding Wal.update_wal_extended
extend-Covers now tx_id o a r e m rest db h =
    All-update_where _ _ (has_id tx_id) (extend now o a r e m) db.wal_transactions (λ x q k. k)
      (λ x q k. k) h

clean_staging-Keeps :
    {P : Database → Type 0} (json : Serde) (store_path : FilePath) (tx_id : Text)
    → Keeps (λ _ db. P db) (clean_staging json store_path tx_id)
clean_staging-Keeps json store_path tx_id = Keeps-bind _ _ (Keeps-gets _) λ there.
    Keeps-if (not there) (pure []) _ (λ _. Keeps-pure [])
      λ _.
        Keeps-bind _ _ (Keeps-try _ (remove_dir_all-Keeps_db _))
          λ gone. Keeps-pure (cleaned tx_id gone)

clean_legacy-Keeps :
    {P : Database → Type 0} (json : Serde) (store_path : FilePath) (hash : Option Text)
    → Keeps (λ _ db. P db) (clean_legacy json store_path hash)
clean_legacy-Keeps json store_path none = Keeps-pure tt
clean_legacy-Keeps json store_path (some hash) = Keeps-bind _ _ (Keeps-gets _) λ there.
    Keeps-if there _ (pure tt)
      (λ _. Keeps-bind _ _ (Keeps-try _ (remove_file-Keeps_db _)) λ _. Keeps-pure tt)
      (λ _. Keeps-pure tt)

pub update_wal_status-Covers :
    (status : TransactionStatus) (tx : WalTransaction) (rest : List WalTransaction) (w : World)
    → ((now : ℕ) (x : WalTransaction) → is_incomplete (set_status now status x) ≡ false)
    → Covers (tx ∷ rest) w.db
    → Ends (λ _ v. Covers rest v.db) (λ _. Unit {0}) (update_wal_status tx.tx_id status w)
unfolding update_wal_status
update_wal_status-Covers status tx rest w final h =
    Keeps-then now _ w Keeps-now h
      (λ at v k.
        Ends-mono (execute-Ends (Wal.update_wal_status at tx.tx_id status) v)
          (λ _ u (d, _).
            subst (Covers rest) (sym d) (status-Covers at status tx rest v.db (final at) k))
          (λ u _. tt))
      (λ v _. tt)

finish-Covers :
    (tx : WalTransaction) (rest : List WalTransaction) (message : Option Text) (w : World)
    → Covers (tx ∷ rest) w.db
    → Ends (λ _ v. Covers rest v.db) (λ _. Unit) (finish tx.tx_id Enums.failed message w)
unfolding update_wal_status update_wal_extended
finish-Covers tx rest message w h =
    Keeps-then now _ w Keeps-now h
      (λ end_time w1 h1.
        Ends-bind (update_wal_status tx.tx_id Enums.failed) _ w1
          (update_wal_status-Covers Enums.failed tx rest w1 (λ at x. refl) h1)
          (λ _ w3 h3.
            Keeps-then now _ w3 Keeps-now h3
              (λ at w4 h4.
                Ends-mono
                  (execute-Ends
                    (Wal.update_wal_extended at tx.tx_id none none none (some end_time) message) w4)
                  (λ _ v (d, _). subst (Covers rest) (sym d) (
                    extend-Covers at tx.tx_id none none none (some end_time) message rest w4.db h4))
                  (λ v _. tt))
              (λ v _. tt))
          (λ v _. tt))
      (λ v _. tt)

recover_one-Covers :
    (json : Serde) (store_path : FilePath) (tx : WalTransaction) (rest : List WalTransaction)
    (w : World)
    → Covers (tx ∷ rest) w.db
    → Ends (λ _ v. Covers rest v.db) (λ _. Unit) (recover_one json store_path tx w)
recover_one-Covers json store_path tx rest w h =
    Keeps-then (clean_staging json store_path tx.tx_id) _ w
      (clean_staging-Keeps json store_path tx.tx_id) h
      (λ done w1 h1.
        Keeps-then (clean_legacy json store_path tx.target_hash) _ w1
          (clean_legacy-Keeps json store_path tx.target_hash) h1
          (λ _ w2 h2.
            Ends-bind (finish tx.tx_id Enums.failed _) _ w2 (finish-Covers tx rest _ w2 h2)
              (λ _ w3 h3. Ends-pure _ w3 h3) (λ v _. tt))
          (λ v _. tt))
      (λ v _. tt)

recover_all-Covers :
    (json : Serde) (store_path : FilePath) (txs : List WalTransaction) (w : World)
    → Covers txs w.db
    → Ends (λ _ v. Covers [] v.db) (λ _. Unit) (recover_all json store_path txs w)
unfolding recover_all
recover_all-Covers json store_path [] w h = Ends-pure [] w h
recover_all-Covers json store_path (tx ∷ txs) w h =
    Ends-bind (recover_one json store_path tx) _ w (recover_one-Covers json store_path tx txs w h)
      (λ rs w1 h1.
        Ends-bind (recover_all json store_path txs) _ w1
          (recover_all-Covers json store_path txs w1 h1) (λ more w2 h2. Ends-pure _ w2 h2)
          (λ v _. tt))
      (λ v _. tt)

-- If `recover` returns, whatever files it could not remove, no transaction of the log is pending or
-- copied any more.
pub recover-none_incomplete :
    (json : Serde) (store_path : FilePath) (w : World)
    → Ends
        (λ _ v. get_incomplete_wal_transactions v.db ≡ [])
        (λ _. Unit)
        (recover json store_path w)
unfolding recover
recover-none_incomplete json store_path w =
    Ends-bind (query get_incomplete_wal_transactions) _ w
      (query-Ends get_incomplete_wal_transactions w)
      (λ txs v (e, d, _).
        Ends-mono (recover_all-Covers json store_path txs v (rw (e, d) (start-Covers w.db)))
          (λ rs u h. none_incomplete u.db h) (λ u _. tt))
      (λ v _. tt)
