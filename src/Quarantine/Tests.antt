-- ===== src/Quarantine/Tests.antt =====
-- The quarantine on small stores: runs, and the theorems at concrete worlds.
use model_id.Base.{ℕ, Option, ◌≡◌, refl, ap, none, some, [], ◌∷◌, arith, list_eq, nat_eq, length}
use model_id.Base.Text.{codes}
use model_id.Base.Dict.{lookup, insert, erase}
use model_id.Base.Decimal.{show}
use model_id.Base.Results.{ok}
use model_id.Sys.{FilePath, dir, file, fine, fails, torn, World, call, now, ◌>>=◌}
use model_id.Sys.Files.{
  parent, file_name, create_dir_all, metadata_len, write, rename, copy, remove_file, file_above,
}
use model_id.Sys.Keeps.{Holds}
use model_id.Sys.Results.{Ends}
use model_id.Sys.Sample.{empty_db, store, world}
use model_id.Quarantine.{
  init, move_file, file_name_for, QuarantineMeta, Serde, new, quarantine, restore, cleanup_expired,
  meta_path_for,
}
use model_id.Quarantine.Codec.{
  codec-to_string_lossy, codec, enc_meta, codec-enc_meta, codec-writes, codec-RoundTrips,
}
use model_id.Quarantine.Safe.{meta_name-fresh, CameFrom, Outside, quarantine_moves}
use model_id.Quarantine.Restored.{Back, restore_moves}
use model_id.Quarantine.Success.{IsReady, quarantine-Returns}
use model_id.Quarantine.Cleanup.{cleanup_expired-Holds}

abbrev model_path : FilePath
model_path = codes "models" ∷ codes "a.bin" ∷ []

abbrev some_length : Option FilePath → ℕ
some_length none = 0
some_length (some p) = length p

abbrev before_world : World
before_world =
    world ((model_path, file (codes "weights")) ∷ []) empty_db (fine ∷ fine ∷ torn 3 ∷ [])

model_path-Outside : Outside (new store) model_path
model_path-Outside name e = omega (arith, ap length e)

quarantine_moves_example :
    Ends
      (λ p v.
        (lookup p v.fs ≡ some (file (codes "weights")))
        × (lookup model_path v.fs ≡ none)
        × CameFrom codec (new store) model_path p v)
      (λ v. lookup model_path v.fs ≡ some (file (codes "weights")))
      (quarantine codec (new store) model_path (codes "ab") (codes "test") [] before_world)
unfolding lookup list_eq nat_eq
quarantine_moves_example =
    quarantine_moves codec (new store) codec-RoundTrips model_path (codes "weights")
      model_path-Outside (codec-to_string_lossy model_path) (codes "ab") (codes "test") []
      before_world refl

abbrev quiet_world : World
quiet_world = world ((model_path, file (codes "weights")) ∷ []) empty_db []

quiet_world-IsReady : IsReady (new store) model_path (codes "weights") quiet_world
unfolding lookup list_eq nat_eq
quiet_world-IsReady = record { no_faults = refl; there = refl; free = λ name e. ground (arith, e) }

quarantine-Returns_example :
    (p : FilePath) × ((quarantine codec
        (new store)
        model_path
        (codes "ab")
        (codes "test")
        []
        quiet_world).0
      ≡ ok p)
unfolding lookup list_eq nat_eq file_above
quarantine-Returns_example =
    quarantine-Returns (new store) model_path (codes "weights") codec (codes "ab") (codes "test") []
      quiet_world quiet_world-IsReady model_path-Outside codec-writes refl

abbrev kept_path : FilePath
kept_path = codes "store" ∷ codes "quarantine" ∷ codes "ab.5" ∷ []

abbrev meta : QuarantineMeta
meta = record {
  original_path = model_path;
  quarantined_at = 5000000000;
  reason = codes "test";
  blake3_hash = codes "ab";
  size_bytes = 7;
  references = [];
}

abbrev kept_world : World
kept_world =
    world
      ((kept_path, file (codes "weights"))
        ∷ (meta_path_for codec (new store) kept_path, file (enc_meta meta))
        ∷ [])
      empty_db (fine ∷ fine ∷ fine ∷ fails ∷ torn 3 ∷ [])

restore_moves_example :
    Ends
      (Back codec (new store) kept_path (codes "weights") (enc_meta meta) meta)
      (λ v. Holds kept_path (codes "weights") v.fs v.db)
      (restore codec (new store) kept_path kept_world)
unfolding lookup list_eq nat_eq file_name
restore_moves_example =
    restore_moves codec (new store) kept_path (codes "weights") (enc_meta meta) meta
      (meta_name-fresh (codes "store" ∷ codes "quarantine" ∷ []) (codes "ab.5"))
      (codec-enc_meta meta) kept_world refl refl

-- The quarantined file is too old; the model beside it stays.
abbrev old_world : World
old_world =
    world
      ((codes "store" ∷ codes "quarantine" ∷ [], dir)
        ∷ (kept_path, file (codes "weights"))
        ∷ (
          meta_path_for codec (new store) kept_path,
          file (enc_meta (record meta { quarantined_at = 0 })),
        )
        ∷ (model_path, file (codes "other"))
        ∷ [])
      empty_db []

cleanup_expired-Holds_example :
    Holds model_path
      (codes "other")
      (cleanup_expired codec (new store) old_world).1.fs
      (cleanup_expired codec (new store) old_world).1.db
unfolding lookup list_eq nat_eq parent
cleanup_expired-Holds_example =
    cleanup_expired-Holds codec (new store) model_path (codes "other")
      (λ e. omega (arith, ap some_length e)) old_world refl

-- Text that says nothing, for runs that do not read it.
abbrev no_json : Serde
no_json = record { to_string_lossy = λ p. p; to_string_pretty = λ m. some []; from_str = λ t. none }

quarantine_runs :
    (quarantine no_json
      (new store)
      model_path
      (codes "ab")
      (codes "test")
      []
      (world ((model_path, file (codes "weights")) ∷ []) empty_db [])).0
    ≡ ok kept_path
unfolding quarantine init now call create_dir_all metadata_len write move_file rename copy
    remove_file lookup insert erase list_eq nat_eq parent file_name file_name_for show ◌>>=◌
quarantine_runs = refl
