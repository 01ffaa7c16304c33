-- ===== src/Unlink/Tests.antt =====
-- An unlink on a small store.
use model_id.Base.{refl, [], ◌∷◌, list_eq, nat_eq}
use model_id.Base.Text.{codes}
use model_id.Base.Dict.{lookup}
use model_id.Hash.{as_hex, prefix}
use model_id.Db.{Database, Alias}
use model_id.Db.Enums.{hardlink, user}
use model_id.Db.Aliases.{get_alias_by_path}
use model_id.Cas.{path_for_hash}
use model_id.Sys.{FilePath, World, file, fine, fails}
use model_id.Sys.Files.{parent}
use model_id.Sys.Results.{Ends}
use model_id.Sys.Sample.{empty_db, store, world}
use model_id.Unlink.{unlink_path}
use model_id.Unlink.Safe.{IsUnlinked, IsIntact, object_of, unlink_path-IsUnlinked}

abbrev linked_path : FilePath
linked_path = codes "models" ∷ codes "a.bin" ∷ []

abbrev models_dir : FilePath
models_dir = codes "models" ∷ []

abbrev linked : Alias
linked = record {
  id = 1;
  model_hash = record { hex = codes "abcd" };
  path = linked_path;
  frontend = user;
  alias_type = hardlink;
  created_at = 5;
}

abbrev one_alias : Database
one_alias = record empty_db { aliases = linked ∷ []; alias_seq = 1 }

abbrev linked_world : World
linked_world =
    world
      ((linked_path, file (codes "weights"))
        ∷ (
          object_of store linked_path models_dir linked (codes "weights") (codes "weights"),
          file (codes "weights"),
        )
        ∷ [])
      one_alias (fine ∷ fine ∷ fine ∷ fails ∷ [])

unlink_path-IsUnlinked_example :
    Ends
      (λ _ v. IsUnlinked store linked_path models_dir linked (codes "weights") (codes "weights") v)
      (λ v. IsIntact store linked_path models_dir linked (codes "weights") (codes "weights") v)
      (unlink_path store linked_path linked_world)
unfolding path_for_hash as_hex prefix lookup parent get_alias_by_path list_eq nat_eq
unlink_path-IsUnlinked_example =
    unlink_path-IsUnlinked store linked_path models_dir linked (codes "weights") (codes "weights")
      linked_world (λ e. cc) (λ e. cc) (λ e. cc) refl refl refl refl
