-- ===== src/Cas/Tests.antt =====
-- The store on small worlds.
use model_id.Base.{refl, [], ◌∷◌, list_eq, nat_eq}
use model_id.Base.Text.{Text, codes}
use model_id.Base.Dict.{lookup}
use model_id.Hash.{Blake3Hash, as_hex, prefix}
use model_id.Sys.{FilePath, World, file, fine, fails}
use model_id.Sys.Keeps.{Holds}
use model_id.Sys.Results.{Ends}
use model_id.Sys.Sample.{empty_db, store, world}
use model_id.Cas.{new, path_for_hash, store_crash_safe}
use model_id.Cas.Stored.{IsStored, store_crash_safe-IsStored}

abbrev digest : Text → Blake3Hash
digest t = record { hex = codes "abcd" }

abbrev hash : Blake3Hash
hash = record { hex = codes "abcd" }

abbrev upload : FilePath
upload = codes "upload" ∷ []

-- The rename fails, so the object is copied.
abbrev other_volume : World
other_volume =
    world ((upload, file (codes "weights")) ∷ []) empty_db
      (fine ∷ fine ∷ fine ∷ fine ∷ fine ∷ fails ∷ [])

store_crash_safe-IsStored_example :
    Ends
      (IsStored (new store) digest upload hash (codes "weights"))
      (λ v. Holds upload (codes "weights") v.fs v.db)
      (store_crash_safe (new store) digest upload hash (codes "t1") other_volume)
unfolding path_for_hash as_hex prefix lookup list_eq nat_eq
store_crash_safe-IsStored_example =
    store_crash_safe-IsStored (new store) digest upload hash (codes "t1") (codes "weights")
      (λ e. cc) (λ e. cc) other_volume refl refl
