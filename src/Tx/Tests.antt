-- ===== src/Tx/Tests.antt =====
-- Transactions on small logs: the theorems at concrete worlds.
use model_id.Base.{◌≡◌, refl, sym, subst, ◌∙◌, inl, none, some, List, [], ◌∷◌, All, list_eq, nat_eq}
use model_id.Base.Text.{codes}
use model_id.Base.Dict.{lookup}
use model_id.Base.Results.{ok}
use model_id.Db.{Database, WalTransaction}
use model_id.Db.Enums
use model_id.Db.Wal.{
  new_tx, get_wal_transaction, get_incomplete_wal_transactions, list_wal_transactions,
}
use model_id.Sys.{FilePath, World, dir, file, fine, torn}
use model_id.Sys.Files.{join, with_extension}
use model_id.Sys.Results.{Ends}
use model_id.Sys.Sample.{empty_db, store, world}
use model_id.Tx.{
  dedup, unlink, failed, PathEntry, RollbackPlan, TxPlan, TxFilter, TxRecoveryResult, begin,
  rollback, recover,
}
use model_id.Tx.History.{list}
use model_id.Tx.Recovery.{recover-none_incomplete}
use model_id.Tx.Live.{recover-Returns}
use model_id.Tx.Rollback.{IsSafe, Intact, plan_of, rollback-Intact}
use model_id.Tx.Rows.{rollback-rollback}
use model_id.Tx.Begun.{Begun, begin-Begun}
use model_id.Base.{Bool}
use model_id.Db.Table.{count_where}
use model_id.Tx.Listing.{IsFiltered, IsLatestFirst, list-IsFiltered}
use model_id.Tx.Codec.{codec, enc_entries, codec-enc_entries, codec-RoundTrips}

abbrev source_path : FilePath
source_path = codes "models" ∷ codes "a.bin" ∷ []

abbrev object_path : FilePath
object_path = codes "store" ∷ codes "ab" ∷ codes "abcd" ∷ []

abbrev entry : PathEntry
entry = record {
  source = source_path;
  target = some object_path;
  original_hash = none;
  new_hash = none;
  size = 7;
}

abbrev plan : TxPlan
plan = record {
  op_type = dedup;
  affected_paths = entry ∷ [];
  rollback_plan = record { entries = entry ∷ [] };
}

abbrev row : WalTransaction
row = record (new_tx 1 100 (codes "t1") (codes "dedup") Enums.pending none none none) {
  rollback_plan = some (enc_entries (entry ∷ []));
}

abbrev log : Database
log = record empty_db { wal_transactions = row ∷ []; wal_seq = 1 }

-- The staging directory cannot be removed, the copy breaks off.
abbrev troubled : World
troubled =
    world
      ((source_path, file (codes "linked"))
        ∷ (object_path, file (codes "weights"))
        ∷ (join (join (join store (codes "tmp")) (codes "cas_staging")) (codes "t1"), dir)
        ∷ [])
      log (fine ∷ torn 2 ∷ [])

recover-none_incomplete_example :
    Ends
      (λ _ v. get_incomplete_wal_transactions v.db ≡ [])
      (λ _. Unit)
      (recover codec store troubled)
recover-none_incomplete_example = recover-none_incomplete codec store troubled

recover-Returns_example :
    ((rs : List TxRecoveryResult) × ((recover codec store (world [] log [])).0 ≡ ok rs))
    × (get_incomplete_wal_transactions (recover codec store (world [] log [])).1.db ≡ [])
recover-Returns_example = recover-Returns codec store (world [] log []) refl

entries-IsSafe :
    (r : RollbackPlan)
    → plan_of codec (get_wal_transaction (codes "t1") log) ≡ some r
    → All (IsSafe source_path object_path) r.entries
unfolding get_wal_transaction list_eq nat_eq
entries-IsSafe r e =
    subst (λ (q : RollbackPlan). All (IsSafe source_path object_path) q.entries)
      (same (sym (codec-enc_entries (entry ∷ [])) ∙ e)) (inl (refl, refl), tt)
  where
    same : {a b : RollbackPlan} → some a ≡ some b → a ≡ b
    same k = cc

rollback-Intact_example :
    Intact source_path object_path
      (codes "linked")
      (codes "weights")
      (rollback codec store (codes "t1") troubled).1.fs
      (rollback codec store (codes "t1") troubled).1.db
unfolding with_extension lookup list_eq nat_eq
rollback-Intact_example =
    rollback-Intact codec store (codes "t1") source_path object_path (codes "linked")
      (codes "weights") troubled (λ e. cc) (λ e. cc) (λ e. cc) entries-IsSafe (inl refl, refl)

rollback-rollback_example :
    Ends
      (λ _ v.
        ((rollback codec store (codes "t1") v).1.fs ≡ v.fs)
        × ((rollback codec store (codes "t1") v).1.db ≡ v.db))
      (λ _. Unit)
      (rollback codec store (codes "t1") troubled)
rollback-rollback_example = rollback-rollback codec store (codes "t1") troubled

begin-Begun_example :
    Ends
      (λ id v. (id ≡ codes "t2") × Begun codec store (codes "t2") plan v.db)
      (λ _. Unit)
      (begin codec store (codes "t2") plan (world [] log []))
begin-Begun_example = begin-Begun codec store (codes "t2") plan (world [] log []) codec-RoundTrips

abbrev failed_unlinks : TxFilter
failed_unlinks = record { status = some failed; op_type = some unlink }

list-IsFiltered_example :
    Ends
      (λ rs v.
        IsFiltered codec failed_unlinks (list_wal_transactions log) rs
        × IsLatestFirst rs
        × ((p : WalTransaction → Bool)
            → count_where p (list_wal_transactions log) ≡ count_where p log.wal_transactions)
        × (v.db ≡ log))
      (λ v. v.db ≡ log)
      (list codec failed_unlinks (world [] log []))
list-IsFiltered_example = list-IsFiltered codec failed_unlinks (world [] log [])
