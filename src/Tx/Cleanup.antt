-- ===== src/Tx/Cleanup.antt =====
-- What `cleanup_older_than` (crates/modeld-core/src/tx.rs) deletes.
use model_id.Base.{
  ℕ, ◌+◌, ◌≤◌, ◌≡◌, refl, ap, sym, ◌∙◌, Bool, true, false, ◌&&◌, ◌||◌, not, Option, some, List, [],
  ◌∷◌, arith, any, select, All, All-mono, if◌then◌else◌, list_eq, nat_eq, ==_iff, ==_refl,
}
use model_id.Base.Text.{Text}
use model_id.Base.Results.{out_of_range}
use model_id.Db.{Database, WalTransaction}
use model_id.Db.Table.{delete_where, count_where}
use model_id.Db.Order.{any-order_desc, count_where-order_desc}
use model_id.Db.Wal.{has_id, list_wal_transactions, delete_wal_transaction}
use model_id.Sys.{World, pure, now, ◌>>=◌, ◌>>◌}
use model_id.Sys.Tables.{query, execute}
use model_id.Sys.Apart.{execute-Ends, now-Ends}
use model_id.Sys.Results.{Ends, Ends-pure, Ends-bind, Ends-mono, query-Ends}
use model_id.Tx.{or_throw}
use model_id.Tx.Rows.{or_throw-Ends}
use model_id.Tx.History.{is_older, delete_older, cleanup_older_than}

-- A row of `listed` is to go and has the id of `x`.
abbrev pub is_named : (WalTransaction → Bool) → List WalTransaction → WalTransaction → Bool
is_named old listed x = any (λ (y : WalTransaction). old y && has_id y.tx_id x) listed

select-delete_where :
    {A : Type 0} (p q : A → Bool) (xs : List A)
    → select q (delete_where p xs) ≡ select (λ x. not (p x) && q x) xs
unfolding delete_where
select-delete_where p q [] = refl
select-delete_where p q (x ∷ xs) = ground (arith, select-delete_where p q xs)

select-All :
    {A : Type 0} (p q : A → Bool) (xs : List A)
    → All (λ x. p x ≡ q x) xs
    → select p xs ≡ select q xs
select-All p q [] _ = refl
select-All p q (x ∷ xs) (e, h) = ground (arith, e, select-All p q xs h)

select_all : {A : Type 0} (xs : List A) → select (λ x. true) xs ≡ xs
select_all [] = refl
select_all (x ∷ xs) = ap (λ r. x ∷ r) (select_all xs)

each_holds {ℓ} : {A : Type ℓ} {P : A → Type 0} (xs : List A) → ((x : A) → P x) → All P xs
each_holds [] h = tt
each_holds (x ∷ xs) h = (h x, each_holds xs h)

left :
    (tx_id : Text) (old : WalTransaction → Bool) (txs : List WalTransaction) (db : Database)
    → select (λ x. not (is_named old txs x)) (delete_wal_transaction tx_id db).wal_transactions
      ≡ select (λ x. not (has_id tx_id x || is_named old txs x)) db.wal_transactions
unfolding delete_wal_transaction
left tx_id old txs db =
    select-delete_where (has_id tx_id) (λ x. not (is_named old txs x)) db.wal_transactions
    ∙ select-All _ _ db.wal_transactions
        (each_holds db.wal_transactions λ x. both (has_id tx_id x) (is_named old txs x))
  where
    both : (a b : Bool) → (not a && not b) ≡ not (a || b)
    both a b = ground arith

delete_older-rows :
    (old : WalTransaction → Bool) (listed : List WalTransaction) (w : World)
    → Ends
        (λ n v.
          (n ≡ count_where old listed)
          × (v.db.wal_transactions
              ≡ select (λ x. not (is_named old listed x)) w.db.wal_transactions))
        (λ _. Unit)
        (delete_older old listed w)
unfolding delete_older count_where
delete_older-rows old [] w = Ends-pure 0 w (refl, sym (select_all w.db.wal_transactions))
delete_older-rows old (tx ∷ txs) w = by_test (old tx) (delete_older-rows old txs)
  where
    by_test :
        (b : Bool)
        → ((v : World)
            → Ends
                (λ n u.
                  (n ≡ count_where old txs)
                  × (u.db.wal_transactions
                      ≡ select (λ x. not (is_named old txs x)) v.db.wal_transactions))
                (λ _. Unit {0})
                (delete_older old txs v))
        → Ends {A = ℕ}
            (λ n v.
              (n ≡ (if b then 1 else 0) + count_where old txs)
              × (v.db.wal_transactions
                  ≡ select
                      (λ x. not ((b && has_id tx.tx_id x) || is_named old txs x))
                      w.db.wal_transactions))
            (λ _. Unit {0})
            ((if b
                then (do
                  execute (delete_wal_transaction tx.tx_id)
                  count ← delete_older old txs
                  pure (count + 1))
                else delete_older old txs)
              w)
    by_test false rest = Ends-mono (rest w) (λ n v (c, r). (omega (arith, c), r)) (λ v _. tt)
    by_test true rest =
        Ends-bind (execute (delete_wal_transaction tx.tx_id)) _ w
          (execute-Ends (delete_wal_transaction tx.tx_id) w)
          (λ _ u (d, _).
            Ends-bind (delete_older old txs) _ u (rest u)
              (λ n v (c, r). Ends-pure (n + 1) v (
                omega (arith, c),
                r
                    ∙ ap
                        (λ (db : Database).
                          select (λ x. not (is_named old txs x)) db.wal_transactions)
                        d
                    ∙ left tx.tx_id old txs w.db,
              ))
              (λ v _. tt))
          (λ v _. tt)

-- No two rows of the log have one id, as the schema demands.
abbrev pub HasDistinctIds : List WalTransaction → Type 0
HasDistinctIds [] = Unit
HasDistinctIds (x ∷ xs) =
    All (λ (z : WalTransaction). has_id x.tx_id z ≡ false) xs × HasDistinctIds xs

named_old :
    (old : WalTransaction → Bool) (rows : List WalTransaction)
    → HasDistinctIds rows
    → All (λ x. is_named old rows x ≡ old x) rows
named_old old [] _ = tt
named_old old (x ∷ xs) (fresh, d) = (
  ground (arith, ==_refl x.tx_id, none_named xs fresh),
  All-mono (λ z (f, h). ground (arith, f, h, ==_iff z.tx_id x.tx_id, ==_iff x.tx_id z.tx_id)) xs
      (zip xs fresh (named_old old xs d)),
)
  where
    none_named :
        (zs : List WalTransaction)
        → All (λ (z : WalTransaction). has_id x.tx_id z ≡ false) zs
        → is_named old zs x ≡ false
    none_named [] _ = refl
    none_named (z ∷ zs) (f, h) =
        ground (arith, f, none_named zs h, ==_iff x.tx_id z.tx_id, ==_iff z.tx_id x.tx_id)

    zip :
        (zs : List WalTransaction)
        → All (λ (z : WalTransaction). has_id x.tx_id z ≡ false) zs
        → All (λ z. is_named old xs z ≡ old z) zs
        → All (λ (z : WalTransaction). (has_id x.tx_id z ≡ false) × (is_named old xs z ≡ old z)) zs
    zip [] _ _ = tt
    zip (z ∷ zs) (f, h) (g, k) = ((f, g), zip zs h k)

counted :
    (p : WalTransaction → Bool) (db : Database) (rows : List WalTransaction)
    → rows ≡ list_wal_transactions db
    → count_where p rows ≡ count_where p db.wal_transactions
unfolding list_wal_transactions
counted p db rows e = ap (count_where p) e ∙ count_where-order_desc p _ db.wal_transactions

unnamed :
    (p : WalTransaction → Bool) (db : Database) (rows : List WalTransaction)
    → rows ≡ list_wal_transactions db
    → HasDistinctIds db.wal_transactions
    → select (λ x. not (is_named p rows x)) db.wal_transactions
      ≡ select (λ x. not (p x)) db.wal_transactions
unfolding list_wal_transactions
unnamed p db rows e d = select-All _ _ db.wal_transactions (
    All-mono
      (λ x h. ap not (ap (λ l. is_named p l x) e ∙ any-order_desc _ _ db.wal_transactions ∙ h))
      db.wal_transactions (named_old p db.wal_transactions d))

-- If `cleanup_older_than` returns, the log has lost exactly the rows made earlier than the duration
-- before a time at or after the start, the rest in their order, and their number is returned; the
-- rows' ids are distinct.
pub cleanup_older_than-exact :
    (from_std : ℕ → Option ℕ) (duration : ℕ) (w : World)
    → HasDistinctIds w.db.wal_transactions
    → Ends
        (λ n v.
          (at : ℕ) × (span : ℕ) × (w.clock ≤ at)
          × (from_std duration ≡ some span)
          × (n ≡ count_where (is_older at span) w.db.wal_transactions)
          × (v.db.wal_transactions ≡ select (λ x. not (is_older at span x)) w.db.wal_transactions))
        (λ _. Unit)
        (cleanup_older_than from_std duration w)
unfolding cleanup_older_than
cleanup_older_than-exact from_std duration w d =
    Ends-bind now _ w (now-Ends w)
      (λ at w1 (late, same, _).
        Ends-bind (or_throw out_of_range (from_std duration)) _ w1 (or_throw-Ends out_of_range _ w1)
          (λ span w2 (e, at2).
            Ends-bind (query list_wal_transactions) _ w2 (query-Ends list_wal_transactions w2)
              (λ rows w3 (r, d3, _).
                Ends-mono (delete_older-rows (is_older at span) rows w3)
                  (λ n v (c, rest). (
                    at,
                    span,
                    late,
                    e,
                    c ∙ counted (is_older at span) w.db rows (listed r at2 same),
                    rest
                        ∙ ap
                            (λ (db : Database).
                              select (λ x. not (is_named (is_older at span) rows x))
                                db.wal_transactions)
                            (d3 ∙ ap (λ (u : World). u.db) at2 ∙ same)
                        ∙ unnamed (is_older at span) w.db rows (listed r at2 same) d,
                  ))
                  (λ v _. tt))
              (λ v _. tt))
          (λ v _. tt))
      (λ v f. tt)
  where
    listed :
        {rows : List WalTransaction} {w1 w2 : World}
        → rows ≡ list_wal_transactions w2.db
        → w2 ≡ w1
        → w1.db ≡ w.db
        → rows ≡ list_wal_transactions w.db
    listed r e k = r ∙ ap (λ (u : World). list_wal_transactions u.db) e ∙ ap list_wal_transactions k
