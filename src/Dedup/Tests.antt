-- ===== src/Dedup/Tests.antt =====
-- Plans and their execution on small groups, and a recovery.
use model_id.Base.{◌≡◌, refl, inl, none, some, arith, [], ◌∷◌, All, list_eq, nat_eq}
use model_id.Base.Text.{Text, codes}
use model_id.Hash.{Blake3Hash}
use model_id.Sys.{World, dir, file, fine, fails}
use model_id.Sys.Results.{Ends}
use model_id.Sys.Sample.{empty_db, store, world}
use model_id.Dedup.{
  FileInfo, DuplicateGroup, DedupEngine, select_canonical, plan_groups, calculate_savings,
  newest_of,
}
use model_id.Dedup.Engine.{new, with_protected_paths, with_min_size, with_exclude_globs}
use model_id.Dedup.Select.{Keeping}
use model_id.Dedup.Kept.{IsPreferred, select_canonical-Keeping}
use model_id.Dedup.Find.{IsGroup, find_duplicates, find_duplicates-IsGroup}
use model_id.Db.Models.{new_model}
use model_id.Base.Dict.{lookup}
use model_id.Tx
use model_id.Base.{length}
use model_id.Db.Enums
use model_id.Db.Wal.{new_tx, get_incomplete_wal_transactions}
use model_id.Dedup.Recover.{recover_incomplete_transactions}
use model_id.Dedup.Recovered.{recover_incomplete_transactions-none_incomplete}
use model_id.Base.{ℕ}
use model_id.Base.Results.{Result, ok, err}
use model_id.Links.{detect, create_hardlink}
use model_id.Dedup.Linking.{DedupGroupResult, cas_path_for_hash}
use model_id.Dedup.Execute.{auto, only_reports, execute_dedup_group}
use model_id.Dedup.Preserved.{IsDone, IsSafe, execute_dedup_group-IsDone}
use model_id.Dedup.Untouched.{execute_dedup_group-Holds}

abbrev short_digest : Text → Blake3Hash
short_digest t = record { hex = t }

abbrev engine : DedupEngine
engine =
    with_exclude_globs (codes "*.tmp" ∷ [])
      (with_min_size 1 (with_protected_paths ((codes "models" ∷ []) ∷ []) (new store)))

abbrev older : FileInfo
older = record { path = codes "models" ∷ codes "a.bin" ∷ []; size = 7; mtime = 10 }

abbrev newer : FileInfo
newer = record { path = codes "downloads" ∷ codes "b.bin" ∷ []; size = 7; mtime = 20 }

abbrev group : DuplicateGroup
group = record { hash = record { hex = codes "ab" }; files = newer ∷ older ∷ []; total_size = 7 }

abbrev two_files : World
two_files =
    world ((older.path, file (codes "weights")) ∷ (newer.path, file (codes "weights")) ∷ [])
      empty_db (fine ∷ fine ∷ fails ∷ [])

select_canonical-Keeping_example :
    Ends
      (λ sel v.
        ((c : FileInfo) × Keeping (newer ∷ older ∷ []) c sel
          × IsPreferred short_digest engine (newer ∷ older ∷ []) two_files c)
        × ((v.fs ≡ two_files.fs) × (v.db ≡ two_files.db)))
      (λ v. (v.fs ≡ two_files.fs) × (v.db ≡ two_files.db))
      (select_canonical short_digest engine (newer ∷ older ∷ []) two_files)
select_canonical-Keeping_example =
    select_canonical-Keeping short_digest engine (newer ∷ older ∷ []) two_files

find_duplicates-IsGroup_example :
    Ends
      (λ groups _. All (IsGroup engine) groups)
      (λ _. Unit)
      (find_duplicates (λ p. 0) engine two_files)
find_duplicates-IsGroup_example = find_duplicates-IsGroup (λ p. 0) engine two_files

-- Of two files the one modified last is kept.
newest_is_kept : newest_of older (newer ∷ []) ≡ newer
unfolding newest_of nat_eq
newest_is_kept = refl

abbrev no_json : Tx.Serde
no_json = record {
  paths_to_string = λ ps. none;
  paths_from_str = λ s. none;
  plan_to_string = λ r. none;
  plan_from_str = λ s. none;
}

-- A group with the digest of its content.
abbrev weights : DuplicateGroup
weights = record group { hash = short_digest (codes "weights") }

-- The two files, and one more.
abbrev three_files : World
three_files = record two_files {
  fs =
      (codes "models" ∷ [], dir)
      ∷ (codes "downloads" ∷ [], dir)
      ∷ (codes "c.bin" ∷ [], file (codes "other"))
      ∷ two_files.fs;
  db = record empty_db { models = new_model 1 5 weights.hash 7 none none none none ∷ [] };
}

execute_dedup_group-IsDone_example :
    Ends
      (λ _.
        IsDone short_digest weights.hash
          (cas_path_for_hash engine weights.hash)
          newer.path
          (codes "weights")
          (only_reports auto))
      (IsSafe short_digest weights.hash
        (cas_path_for_hash engine weights.hash)
        newer.path
        (codes "weights"))
      (execute_dedup_group engine no_json
        (λ ps. none)
        short_digest
        (λ p. 0)
        (λ p. some p)
        detect
        (codes "t1")
        weights
        auto
        three_files)
unfolding lookup list_eq nat_eq
execute_dedup_group-IsDone_example =
    execute_dedup_group-IsDone no_json (λ ps. none) short_digest (λ p. 0) (λ p. some p) detect
      engine (codes "t1") weights auto newer.path (codes "weights") three_files
      (ground arith, (ground arith, tt)) (ground arith) (ground arith) refl (inl refl)

execute_dedup_group-Holds_example :
    lookup
      (codes "c.bin" ∷ [])
      (execute_dedup_group engine no_json
        (λ ps. none)
        short_digest
        (λ p. 0)
        (λ p. some p)
        detect
        (codes "t1")
        weights
        auto
        three_files).1.fs
    ≡ some (file (codes "other"))
unfolding lookup list_eq nat_eq
execute_dedup_group-Holds_example =
    execute_dedup_group-Holds no_json (λ ps. none) short_digest (λ p. 0) (λ p. some p) detect engine
      (codes "t1") weights auto (codes "c.bin" ∷ []) (codes "other") three_files
      (ground arith, (ground arith, tt)) (ground arith) (ground arith) refl

abbrev saved : Result DedupGroupResult → ℕ
saved (ok r) = r.space_saved
saved (err e) = 0

-- With no failure both files become links.
both_are_linked :
    saved
      (execute_dedup_group engine no_json
        (λ ps. none)
        short_digest
        (λ p. 0)
        (λ p. some p)
        detect
        (codes "t1")
        weights
        auto
        (record three_files { faults = [] })).0
    ≡ 14
unfolding execute_dedup_group model_id.Sys.Files.target model_id.Sys.Files.on_way
    model_id.Sys.Files.file_above lookup list_eq nat_eq model_id.Sys.◌>>=◌
    model_id.Sys.Files.metadata_len model_id.Sys.call model_id.Sys.Files.read_to_string
    model_id.Sys.Tables.query model_id.Db.Models.get_model model_id.Sys.Files.create_dir_all
    model_id.Sys.now model_id.Sys.Tables.attempt model_id.Db.Wal.insert_wal_transaction
    model_id.Sys.Tables.execute model_id.Base.Dict.insert model_id.Sys.Files.copy
    model_id.Hash.as_hex model_id.Sys.Paths.parent model_id.Sys.Files.rename model_id.Hash.prefix
    model_id.Base.Dict.erase model_id.Base.Lexical.text_leb model_id.Db.Aliases.delete_alias
    model_id.Db.Aliases.get_alias_by_path model_id.Db.Aliases.insert_alias
    model_id.Db.Table.delete_where model_id.Db.Table.update_where
    model_id.Db.Wal.update_wal_extended model_id.Db.Wal.update_wal_status
    model_id.Dedup.Linking.link_canonical model_id.Dedup.Linking.link_duplicates
    model_id.Dedup.Execute.open_wal model_id.Dedup.Execute.prepare model_id.Dedup.Execute.publish
    model_id.Dedup.Execute.run_group model_id.Dedup.first_pinned model_id.Dedup.key_leb newest_of
    model_id.Dedup.path_text select_canonical model_id.Governance.is_pinned
    model_id.Hash.Reading.hash_file create_hardlink model_id.Links.create_link
    model_id.Links.create_symlink model_id.Platform.is_same_volume
    model_id.Platform.same_volume_by_path_prefix model_id.Sys.Files.remove_file
    model_id.Sys.Links.hard_link model_id.Sys.Links.symlink model_id.Sys.Paths.is_under Tx.commit
    Tx.fail Tx.update_wal_extended Tx.update_wal_status model_id.Base.ℕ_discrete
both_are_linked = refl

-- A link that cannot be made leaves no file where the duplicate was.
failed_link_leaves_none :
    lookup older.path
      (create_hardlink older.path newer.path (record two_files { faults = fine ∷ fails ∷ [] })).1.fs
    ≡ none
unfolding create_hardlink lookup list_eq nat_eq model_id.Sys.◌>>=◌ model_id.Sys.Files.remove_file
    model_id.Sys.call model_id.Sys.Links.hard_link model_id.Base.Dict.erase
failed_link_leaves_none = refl

-- Two transactions that a crash left: one whose phase A is done, and one before it.
abbrev interrupted : World
interrupted = record three_files {
  db = record empty_db {
    models = new_model 1 5 weights.hash 7 none none none none ∷ [];
    wal_transactions =
        new_tx 1 5 (codes "11111111") (codes "dedup") Enums.copied (some (codes "a.bin"))
          (some (codes "0123456789abcdef0123456789abcdef0123456789abcdef0123456789abcdef")) none
        ∷ new_tx 2 6 (codes "22222222") (codes "dedup") Enums.pending none (some (codes "other"))
            none
        ∷ [];
  };
}

recover_incomplete_transactions-none_incomplete_example :
    Ends
      (λ n v.
        (n ≡ length (get_incomplete_wal_transactions interrupted.db))
        × (get_incomplete_wal_transactions v.db ≡ []))
      (λ _. Unit {0})
      (recover_incomplete_transactions (λ p. 0) detect (λ t. t ∷ []) (λ t. none) engine interrupted)
recover_incomplete_transactions-none_incomplete_example =
    recover_incomplete_transactions-none_incomplete (λ p. 0) detect (λ t. t ∷ []) (λ t. none) engine
      interrupted
