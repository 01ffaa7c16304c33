-- ===== src/Tx/Listing.antt =====
-- What `list` (crates/modeld-core/src/tx.rs) returns, and the names of the operations.
use model_id.Base.{
  ℕ, ◌≤◌, ◌≡◌, ◌↔◌, refl, ap, sym, ◌∙◌, Bool, true, false, ◌&&◌, Option, none, some, List, [], ◌∷◌,
  arith, All, if◌then◌else◌, list_eq, nat_eq, ◌==◌, ==_iff,
}
use model_id.Base.Text.{Text}
use model_id.Db.{WalTransaction}
use model_id.Db.Wal.{list_wal_transactions}
use model_id.Db.Table.{count_where}
use model_id.Db.Order.{IsDescending, order_desc-IsDescending, count_where-order_desc}
use model_id.Sys.{World}
use model_id.Sys.Tables.{query}
use model_id.Sys.Results.{Ends, Ends-pure, Ends-bind, query-Ends}
use model_id.Tx.{
  OpType, dedup, unlink, gc, quarantine_cleanup, alias_rewrite, cas_promotion, hf_download_commit,
  store_migration, as_str, parse_str, TxStatus, pending, committed, failed, rolled_back, from_db,
  TxRecord, TxFilter, Serde,
}
use model_id.Tx.History.{
  op_discriminant, status_discriminant, status_admits, op_admits, op_of, record_of, admits,
  filter_map, list,
}

peel :
    (s a : Text) (x op : OpType) (rest : Option OpType)
    → a ≡ as_str x
    → (rest ≡ some op → s ≡ as_str op)
    → (if s == a then some x else rest) ≡ some op
    → s ≡ as_str op
peel s a x op rest name more = by_test (s == a) refl
  where
    same : some x ≡ some op → x ≡ op
    same k = cc

    by_test : (b : Bool) → (s == a) ≡ b → (if b then some x else rest) ≡ some op → s ≡ as_str op
    by_test true e k = (==_iff s a).0 e ∙ name ∙ ap as_str (same k)
    by_test false e k = more k

-- A text is read as an operation just if it is the operation's name.
pub parse_str-as_str : (s : Text) (op : OpType) → (parse_str s ≡ some op) ↔ (s ≡ as_str op)
unfolding parse_str as_str list_eq nat_eq
parse_str-as_str s op = (
  peel s _ dedup op _ refl (
      peel s _ unlink op _ refl (
        peel s _ gc op _ refl (
          peel s _ quarantine_cleanup op _ refl (
            peel s _ alias_rewrite op _ refl (
              peel s _ cas_promotion op _ refl (
                peel s _ hf_download_commit op _ refl
                  (peel s _ store_migration op _ refl (λ e. cc)))))))),
  λ e. ap parse_str e ∙ read op,
)
  where
    read : (op : OpType) → parse_str (as_str op) ≡ some op
    read dedup = refl
    read unlink = refl
    read gc = refl
    read quarantine_cleanup = refl
    read alias_rewrite = refl
    read cas_promotion = refl
    read hf_download_commit = refl
    read store_migration = refl

status_at : ℕ → TxStatus
status_at n =
    if n == 0 then pending else if n == 1 then committed else if n == 2 then failed else rolled_back

same_status : (s t : TxStatus) → status_discriminant s ≡ status_discriminant t → s ≡ t
unfolding status_at nat_eq
same_status s t e = sym (back s) ∙ ap status_at e ∙ back t
  where
    back : (s : TxStatus) → status_at (status_discriminant s) ≡ s
    back pending = refl
    back committed = refl
    back failed = refl
    back rolled_back = refl

op_at : ℕ → OpType
op_at n =
    if n == 0
    then dedup
    else if n == 1
    then unlink
    else if n == 2
    then gc
    else if n == 3
    then quarantine_cleanup
    else if n == 4
    then alias_rewrite
    else if n == 5
    then cas_promotion
    else if n == 6
    then hf_download_commit
    else store_migration

same_op : (s t : OpType) → op_discriminant s ≡ op_discriminant t → s ≡ t
unfolding op_at nat_eq
same_op s t e = sym (back s) ∙ ap op_at e ∙ back t
  where
    back : (s : OpType) → op_at (op_discriminant s) ≡ s
    back dedup = refl
    back unlink = refl
    back gc = refl
    back quarantine_cleanup = refl
    back alias_rewrite = refl
    back cas_promotion = refl
    back hf_download_commit = refl
    back store_migration = refl

-- The record is one that the filter asks for.
abbrev pub Fits : TxFilter → TxRecord → Type 0
Fits filter r =
    ((s : TxStatus) → filter.status ≡ some s → r.status ≡ s)
    × ((o : OpType) → filter.op_type ≡ some o → r.op_type ≡ some o)

-- No record is newer than the one before it.
abbrev pub IsLatestFirst : List TxRecord → Type 0
IsLatestFirst [] = Unit
IsLatestFirst (r ∷ rs) = All (λ (x : TxRecord). x.start_time ≤ r.start_time) rs × IsLatestFirst rs

module _ (json : Serde) where
  -- The records of the rows that fit the filter, and of no others, in the order of the rows.
  pub data IsFiltered (filter : TxFilter) : List WalTransaction → List TxRecord → Type 0 where
    none_left : IsFiltered filter [] []
    taken :
        {tx : WalTransaction} {txs : List WalTransaction} {rs : List TxRecord}
        → Fits filter (record_of json tx)
        → IsFiltered filter txs rs
        → IsFiltered filter (tx ∷ txs) (record_of json tx ∷ rs)
    passed :
        {tx : WalTransaction} {txs : List WalTransaction} {rs : List TxRecord}
        → ¬ Fits filter (record_of json tx)
        → IsFiltered filter txs rs
        → IsFiltered filter (tx ∷ txs) rs

  status_fits :
      (o : Option TxStatus) (s : TxStatus)
      → status_admits o s ≡ true ↔ ((t : TxStatus) → o ≡ some t → s ≡ t)
  status_fits none s = (λ e t k. cc, λ h. refl)
  status_fits (some u) s = (
    λ e t k. same_status s t (
        (==_iff (status_discriminant s) _).0 e
        ∙ ap (λ (o : Option TxStatus). elim o [ none ↦ 0 | some v ↦ status_discriminant v ]) k),
    λ h. (==_iff (status_discriminant s) _).1 (ap status_discriminant (h u refl)),
  )

  op_fits : (o p : Option OpType) → op_admits o p ≡ true ↔ ((t : OpType) → o ≡ some t → p ≡ some t)
  op_fits none p = (λ e t k. cc, λ h. refl)
  op_fits (some u) none = (λ e t k. cc, λ h. absurd (nothing (h u refl)))
    where
      nothing : none ≡ some u → ⊥
      nothing e = cc
  op_fits (some u) (some v) = (
    λ e t k. ap some (
        same_op v t (
          (==_iff (op_discriminant v) _).0 e
          ∙ ap (λ (o : Option OpType). elim o [ none ↦ 0 | some x ↦ op_discriminant x ]) k)),
    λ h.
        (==_iff (op_discriminant v) _).1
          (ap (λ (o : Option OpType). elim o [ none ↦ 0 | some x ↦ op_discriminant x ]) (h u refl)),
  )

  admits-Fits :
      (filter : TxFilter) (tx : WalTransaction)
      → admits json filter tx ≡ true ↔ Fits filter (record_of json tx)
  admits-Fits filter tx =
      let (s, s') = status_fits filter.status (from_db tx.status) in
      let (o, o') = op_fits filter.op_type (op_of tx.op_type) in
      (λ e. let (a, b) = both _ _ e in (s a, o b), λ (h, k). rw (s' h, o' k) refl)
    where
      both : (a b : Bool) → (a && b) ≡ true → (a ≡ true) × (b ≡ true)
      both a b e = ground (arith, e)

  filter_map-IsFiltered :
      (filter : TxFilter) (txs : List WalTransaction)
      → IsFiltered filter txs (filter_map json filter txs)
  unfolding filter_map
  filter_map-IsFiltered filter [] = none_left
  filter_map-IsFiltered filter (tx ∷ txs) =
      by_test (admits json filter tx) refl (filter_map-IsFiltered filter txs)
    where
      by_test :
          (b : Bool)
          → admits json filter tx ≡ b
          → IsFiltered filter txs (filter_map json filter txs)
          → IsFiltered filter (tx ∷ txs) (
              if b
              then record_of json tx ∷ filter_map json filter txs
              else filter_map json filter txs)
      by_test true e h = taken ((admits-Fits filter tx).0 e) h
      by_test false e h = passed (λ k. clash (sym e ∙ (admits-Fits filter tx).1 k)) h
        where
          clash : false ≡ true → ⊥
          clash p = cc

  filtered-All :
      (filter : TxFilter) (n : ℕ) (txs : List WalTransaction) (rs : List TxRecord)
      → IsFiltered filter txs rs
      → All (λ (y : WalTransaction). y.created_at ≤ n) txs
      → All (λ (r : TxRecord). r.start_time ≤ n) rs
  filtered-All filter n [] [] none_left h = tt
  filtered-All filter n [] (r ∷ rs) k h = elim k [ ]
  filtered-All filter n (tx ∷ txs) (r ∷ rs) (taken f k) (h, hs) =
      (h, filtered-All filter n txs rs k hs)
  filtered-All filter n (tx ∷ txs) rs (passed f k) (h, hs) = filtered-All filter n txs rs k hs

  filtered-IsLatestFirst :
      (filter : TxFilter) (txs : List WalTransaction) (rs : List TxRecord)
      → IsFiltered filter txs rs
      → IsDescending (λ (y : WalTransaction). y.created_at) txs
      → IsLatestFirst rs
  filtered-IsLatestFirst filter [] [] none_left h = tt
  filtered-IsLatestFirst filter [] (r ∷ rs) k h = elim k [ ]
  filtered-IsLatestFirst filter (tx ∷ txs) (r ∷ rs) (taken f k) (h, hs) =
      (filtered-All filter tx.created_at txs rs k h, filtered-IsLatestFirst filter txs rs k hs)
  filtered-IsLatestFirst filter (tx ∷ txs) rs (passed f k) (h, hs) =
      filtered-IsLatestFirst filter txs rs k hs

  -- If `list` returns, its records are those of the rows that have the status and the operation that
  -- the filter asks for, and of no others, none is newer than the one before it, the rows are those
  -- of the log, and the database is as it was.
  pub list-IsFiltered :
      (filter : TxFilter) (w : World)
      → Ends
          (λ rs v.
            IsFiltered filter (list_wal_transactions w.db) rs
            × IsLatestFirst rs
            × ((p : WalTransaction → Bool)
                → count_where p (list_wal_transactions w.db) ≡ count_where p w.db.wal_transactions)
            × (v.db ≡ w.db))
          (λ v. v.db ≡ w.db)
          (list json filter w)
  unfolding list list_wal_transactions
  list-IsFiltered filter w =
      Ends-bind (query list_wal_transactions) _ w (query-Ends list_wal_transactions w)
        (λ txs v (e, d, _). Ends-pure (filter_map json filter txs) v (
          rw (sym e) (filter_map-IsFiltered filter txs),
          filtered-IsLatestFirst filter txs (filter_map json filter txs)
              (filter_map-IsFiltered filter txs)
              (rw e (
                order_desc-IsDescending (λ (y : WalTransaction). y.created_at)
                  w.db.wal_transactions)),
          λ p.
              count_where-order_desc p (λ (y : WalTransaction). y.created_at) w.db.wal_transactions,
          d,
        ))
        (λ v d. d)
