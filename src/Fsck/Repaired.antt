-- ===== src/Fsck/Repaired.antt =====
-- What a check finds after a repair (crates/modeld-core/src/fsck.rs).
use model_id.Base.{
  ◌≡◌, ◌≢◌, refl, sym, ap, ◌∙◌, Bool, true, false, none, All, List, [], ◌∷◌, ◌++◌, any, list_eq,
  nat_eq, ==_refl,
}
use model_id.Base.Text.{Text}
use model_id.Base.Dict.{lookup}
use model_id.Base.Results.{Result, ok, err, Error}
use model_id.Hash.{Blake3Hash}
use model_id.Db.{Database, Alias, Model}
use model_id.Db.Models.{list_models}
use model_id.Db.Aliases.{delete_alias, list_all_aliases}
use model_id.Cas
use model_id.Cas.{CasStore, path_for_hash}
use model_id.Sys.{FilePath, World, gets}
use model_id.Sys.Files.{is_some, is_under, exists}
use model_id.Sys.Walk.{remove_dir-Keeps, remove_dir-Keeps_db}
use model_id.Sys.Keeps.{Keeps-gets}
use model_id.Sys.Files.{remove_file}
use model_id.Sys.Apart.{execute-Ends, remove_file-Keeps_db, tried-Ends}
use model_id.Sys.Results.{
  Ends, Ends-pure, Ends-bind, Ends-mono, Keeps-Ends, Keeps-then, query-Ends, gets-Ends, any_end,
}
use model_id.Fsck.{known_hashes}
use model_id.Fsck.Verify.{
  OrphanRecord, VerifyReport, staging_root, verify_models, empty_report, residue, is_orphan,
  orphan_records, run_verify,
}
use model_id.Fsck.Repair.{
  RepairResult, no_repair, count_record, count_file, remove_records, remove_residue, run_repair,
}
use model_id.Fsck.Reads.{verify_models-Keeps, run_verify-Keeps}
use model_id.Fsck.Safe.{IsResidue, run_verify-Residue, run_repair-Kept, remove_empty_dirs-Keeps}
use model_id.Fsck.Orphans.{
  any-list_all_aliases, left_over, none_left_over, no_orphans, orphan_records-cong, deleted,
  deleted-models, any-deleted,
}

-- No object of the store stands below the directory of the stagings.
path_for_hash-outside :
    (store : FilePath) (h : Blake3Hash)
    → is_under (staging_root store) (path_for_hash (Cas.new store) h) ≡ false
unfolding is_under path_for_hash list_eq nat_eq
path_for_hash-outside [] h = refl
path_for_hash-outside (c ∷ store) h = rw (==_refl c) (path_for_hash-outside store h)

-- What removing the records comes to, if nothing was noted as an error.
remove_records-Ends :
    (os : List OrphanRecord) (r : RepairResult) (w : World)
    → Ends
        (λ r' v. r'.errors ≡ [] → (r.errors ≡ []) × (v.db ≡ deleted os w.db))
        (λ _. ⊥)
        (remove_records os r w)
unfolding remove_records deleted
remove_records-Ends [] r w = Ends-pure r w (λ e. (e, refl))
remove_records-Ends (o ∷ os) r w =
    Ends-bind _ _ w (tried-Ends {Bad' = λ _. ⊥} _ w (execute-Ends (delete_alias o.alias_path) w))
      (λ d v (on_ok, _). by_result d v on_ok (remove_records-Ends os _ v)) (λ v x. x)
  where
    not_empty : (xs : List Error) (x : Error) → xs ++ x ∷ [] ≡ [] → ⊥
    not_empty [] x e = cc
    not_empty (y ∷ xs) x e = cc

    by_result :
        (d : Result (Unit {0})) (v : World)
        → ((a : Unit {0}) → d ≡ ok a → (v.db ≡ delete_alias o.alias_path w.db) × (v.fs ≡ w.fs))
        → Ends
            (λ r' u. r'.errors ≡ [] → ((count_record r d).errors ≡ []) × (u.db ≡ deleted os v.db))
            (λ _. ⊥)
            (remove_records os (count_record r d) v)
        → Ends
            (λ r' u.
              r'.errors ≡ []
              → (r.errors ≡ []) × (u.db ≡ deleted os (delete_alias o.alias_path w.db)))
            (λ _. ⊥)
            (remove_records os (count_record r d) v)
    by_result (ok tt) v h ih =
        Ends-mono ih (λ r' u k e. ((k e).0, (k e).1 ∙ ap (deleted os) (h tt refl).0)) (λ u x. x)
    by_result (err x) v h ih =
        Ends-mono ih (λ r' u k e. absurd (not_empty r.errors x (k e).0)) (λ u x. x)

remove_residue-Ends :
    (ps : List FilePath) (r : RepairResult) (w : World)
    → Ends
        (λ r' v. (r'.errors ≡ [] → r.errors ≡ []) × (v.db ≡ w.db))
        (λ _. ⊥)
        (remove_residue ps r w)
unfolding remove_residue
remove_residue-Ends [] r w = Ends-pure r w (λ e. e, refl)
remove_residue-Ends (p ∷ ps) r w =
    Ends-bind _ _ w
      (tried-Ends {Bad' = λ _. ⊥} _ w (
        Keeps-Ends {P = λ _ db. db ≡ w.db} (remove_file p) w
          (remove_file-Keeps_db {P = λ db. db ≡ w.db} p) refl))
      (λ d v (on_ok, on_err).
        Ends-mono (remove_residue-Ends ps (count_file r d) v)
          (λ r' u (k, f). (λ x. before_it d (k x), f ∙ same d v on_ok on_err)) (λ u x. x))
      (λ v x. x)
  where
    same :
        (d : Result (Unit {0})) (v : World)
        → ((a : Unit {0}) → d ≡ ok a → v.db ≡ w.db)
        → ((e : Error) → d ≡ err e → v.db ≡ w.db)
        → v.db ≡ w.db
    same (ok a) v on_ok on_err = on_ok a refl
    same (err e) v on_ok on_err = on_err e refl

    before_it : (d : Result (Unit {0})) → (count_file r d).errors ≡ [] → r.errors ≡ []
    before_it (ok u) e = e
    before_it (err x) e = by_list r.errors e
      where
        by_list : (xs : List Error) → xs ++ x ∷ [] ≡ [] → xs ≡ []
        by_list [] k = refl
        by_list (y ∷ xs) k = cc

module _ (store : FilePath) where
  run_repair-Ends :
      (report : VerifyReport) (w : World)
      → Ends
          (λ r v. r.errors ≡ [] → v.db ≡ deleted report.orphan_db_records w.db)
          (λ _. Unit)
          (run_repair store report w)
  unfolding run_repair
  run_repair-Ends report w =
      Ends-bind _ _ w (remove_records-Ends report.orphan_db_records no_repair w)
        (λ r v k.
          Ends-bind _ _ v (remove_residue-Ends report.staging_residue r v)
            (λ r' u (l, e).
              Keeps-then (gets (exists (staging_root store))) _ u
                (Keeps-gets {P = λ _ db. db ≡ v.db} _) e
                (λ b x f.
                  Keeps-then _ _ x
                    (remove_empty_dirs-Keeps {P = λ _ db. db ≡ v.db} store
                      (λ p _. remove_dir-Keeps_db {P = λ db. db ≡ v.db} p) b)
                    f (λ _ y g. Ends-pure r' y (λ none_failed. g ∙ (k (l none_failed)).1))
                    (λ y _. tt))
                (λ x _. tt))
            (λ u x. absurd x))
        (λ v x. absurd x)

  -- The objects of the store stay.
  run_repair-contains :
      (report : VerifyReport) (w : World)
      → All (IsResidue store) report.staging_residue
      → (h : Blake3Hash)
      → Cas.contains (Cas.new store) h (run_repair store report w).1
        ≡ Cas.contains (Cas.new store) h w
  run_repair-contains report w residue h =
      (run_repair-Kept store (λ n. is_some n ≡ Cas.contains (Cas.new store) h w)
          (path_for_hash (Cas.new store) h) (λ p (under, _). apart p under)
          (λ p under.
            remove_dir-Keeps (λ n. is_some n ≡ Cas.contains (Cas.new store) h w) p
              (path_for_hash (Cas.new store) h) (apart p under))
          report residue).at
        w refl
    where
      clash : true ≡ false → ⊥
      clash e = cc

      apart :
          (p : FilePath)
          → is_under (staging_root store) p ≡ true
          → p ≢ path_for_hash (Cas.new store) h
      apart p under e =
          clash (sym under ∙ ap (is_under (staging_root store)) e ∙ path_for_hash-outside store h)

  module _ (blake3 : Text → Blake3Hash) (deep : Bool) where
    -- The orphans that a check reports are those of the tables and files it started with.
    run_verify-orphans :
        (w : World)
        → Ends
            (λ r v.
              r.orphan_db_records
              ≡ orphan_records
                  (Cas.new store)
                  (known_hashes (list_models none w.db))
                  (list_all_aliases w.db)
                  w)
            (λ _. Unit)
            (run_verify blake3 store deep w)
    unfolding run_verify
    run_verify-orphans w =
        Ends-bind _ _ w (query-Ends (list_models none) w)
          (λ ms v1 (is_models, d1, f1).
            Keeps-then (verify_models blake3 (Cas.new store) deep ms empty_report) _ v1
              (verify_models-Keeps {P = λ fs db. (fs ≡ w.fs) × (db ≡ w.db)} blake3 (Cas.new store)
                deep ms empty_report)
              (f1, d1)
              (λ r v2 (f2, d2).
                Ends-bind _ _ v2 (query-Ends list_all_aliases v2)
                  (λ rows v3 (is_rows, d3, f3).
                    Ends-bind _ _ v3
                      (gets-Ends {Bad = λ _. Unit {0}}
                        (orphan_records (Cas.new store) (known_hashes ms) rows) v3)
                      (λ os v4 (is_orphans, e4).
                        Ends-bind _ _ v4 (any_end (gets (exists (staging_root store))) v4)
                          (λ b v5 _.
                            Ends-bind _ _ v5 (any_end (residue store b) v5)
                              (λ left v6 _. Ends-pure _ v6 (
                                is_orphans
                                ∙ at_start ms rows v4 is_models (is_rows ∙ ap list_all_aliases d2)
                                    (ap (λ (x : World). x.fs) e4 ∙ f3 ∙ f2)))
                              (λ y _. tt))
                          (λ x _. tt))
                      (λ x _. tt))
                  (λ x _. tt))
              (λ x _. tt))
          (λ x _. tt)
      where
        at_start :
            (ms : List Model) (rows : List Alias) (v : World)
            → ms ≡ list_models none w.db
            → rows ≡ list_all_aliases w.db
            → v.fs ≡ w.fs
            → orphan_records (Cas.new store) (known_hashes ms) rows v
              ≡ orphan_records
                  (Cas.new store)
                  (known_hashes (list_models none w.db))
                  (list_all_aliases w.db)
                  w
        at_start ms rows v e f g =
            orphan_records-cong (Cas.new store) (known_hashes ms) v w rows
              (λ h. ap (λ fs. is_some (lookup (path_for_hash (Cas.new store) h) fs)) g)
            ∙ ap (λ k. orphan_records (Cas.new store) (known_hashes k) rows w) e
            ∙ ap (λ k. orphan_records (Cas.new store) (known_hashes (list_models none w.db)) k w) f

  -- What is left has no orphan.
  none_after :
      (v u : World)
      → u.db
        ≡ deleted
            (orphan_records
              (Cas.new store)
              (known_hashes (list_models none v.db))
              (list_all_aliases v.db)
              v)
            v.db
      → ((h : Blake3Hash) → Cas.contains (Cas.new store) h u ≡ Cas.contains (Cas.new store) h v)
      → orphan_records
          (Cas.new store)
          (known_hashes (list_models none u.db))
          (list_all_aliases u.db)
          u
        ≡ []
  unfolding list_models
  none_after v u d same =
      orphan_records-cong (Cas.new store) _ u v (list_all_aliases u.db) same
      ∙ ap (λ k. orphan_records (Cas.new store) k (list_all_aliases u.db) v) same_models
      ∙ no_orphans (Cas.new store) known v (list_all_aliases u.db) (
          any-list_all_aliases (is_orphan (Cas.new store) known v) u.db
          ∙ ap (λ (db : Database). any (is_orphan (Cas.new store) known v) db.aliases) d
          ∙ any-deleted (is_orphan (Cas.new store) known v) reported v.db (
              sym (any-list_all_aliases (left_over (Cas.new store) known v reported) v.db)
              ∙ none_left_over (Cas.new store) known v reported (list_all_aliases v.db) (λ a e. e)))
    where
      known : List Text
      known = known_hashes (list_models none v.db)

      reported : List OrphanRecord
      reported = orphan_records (Cas.new store) known (list_all_aliases v.db) v

      same_models : known_hashes (list_models none u.db) ≡ known
      same_models =
          ap (λ (db : Database). known_hashes (list_models none db)) d
          ∙ ap (λ ms. known_hashes (list_models none (record v.db { models = ms })))
              (deleted-models reported v.db)

  unchanged_orphans :
      (v w : World)
      → v.fs ≡ w.fs
      → v.db ≡ w.db
      → orphan_records
          (Cas.new store)
          (known_hashes (list_models none w.db))
          (list_all_aliases w.db)
          w
        ≡ orphan_records
            (Cas.new store)
            (known_hashes (list_models none v.db))
            (list_all_aliases v.db)
            v
  unchanged_orphans v w f d =
      orphan_records-cong (Cas.new store) _ w v (list_all_aliases w.db)
        (λ h. ap (λ fs. is_some (lookup (path_for_hash (Cas.new store) h) fs)) (sym f))
      ∙ ap
          (λ db.
            orphan_records (Cas.new store) (known_hashes (list_models none db))
              (list_all_aliases db) v)
          (sym d)

-- After a check, a repair by its report that noted no error, and a second check, the second report
-- has no orphan record.
pub run_verify-run_repair-none :
    (blake3 : Text → Blake3Hash) (store : FilePath) (deep deep' : Bool) (w : World)
    → Ends
        (λ report v.
          Ends
            (λ r u.
              r.errors ≡ []
              → Ends
                  (λ report' _. report'.orphan_db_records ≡ [])
                  (λ _. Unit)
                  (run_verify blake3 store deep' u))
            (λ _. Unit)
            (run_repair store report v))
        (λ _. Unit)
        (run_verify blake3 store deep w)
run_verify-run_repair-none blake3 store deep deep' w = record {
  on_ok = λ report e. record {
    on_ok = λ r k none_failed.
        Ends-mono (run_verify-orphans store blake3 deep' _)
          (λ report' _ g.
            g
            ∙ none_after store (run_verify blake3 store deep w).1 _
                ((run_repair-Ends store report _).on_ok r k none_failed
                  ∙ ap (λ os. deleted os (run_verify blake3 store deep w).1.db)
                      ((run_verify-orphans store blake3 deep w).on_ok report e
                        ∙ unchanged_orphans store (run_verify blake3 store deep w).1 w same.0
                            same.1))
                (run_repair-contains store report _
                  ((run_verify-Residue blake3 store deep w).on_ok report e)))
          (λ _ x. x);
    on_err = λ _ _. tt;
  };
  on_err = λ _ _. tt;
}
  where
    same :
        ((run_verify blake3 store deep w).1.fs ≡ w.fs)
        × ((run_verify blake3 store deep w).1.db ≡ w.db)
    same =
        (run_verify-Keeps {P = λ fs db. (fs ≡ w.fs) × (db ≡ w.db)} blake3 store deep).at w
          (refl, refl)
