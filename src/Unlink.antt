-- ===== src/Unlink.antt =====
-- crates/modeld-core/src/unlink.rs on Unix: an alias becomes an independent file again. Permissions
-- have no content here, so the statement that clears the read-only flag is left out.
pub mod Replace
pub mod Safe
mod Tests
use model_id.Base.{
  ℕ, Bool, true, false, Option, none, some, List, [], ◌∷◌, ◌++◌, take, if◌then◌else◌, list_eq,
  nat_eq,
}
use model_id.Base.Text.{Text, codes}
use model_id.Base.Results.{Result, ok, err, Error, not_found, already_original, io_error}
use model_id.Hash.{Blake3Hash, as_hex}
use model_id.Db.{Alias}
use model_id.Db.Enums.{AliasType, original, Frontend, user}
use model_id.Db.Aliases.{get_alias_by_path, insert_alias, delete_alias}
use model_id.Cas.{new, get}
use model_id.Sys.{FilePath, M, pure, throw, gets, try, now, ◌>>=◌, ◌>>◌}
use model_id.Sys.Files.{join, parent, metadata_len, copy, rename, remove_file}
use model_id.Sys.Tables.{query, execute, attempt}
use model_id.Tx.{or_throw}

pub record UnlinkResult : Type 0 where
  pub path : FilePath
  pub hash : Blake3Hash
  pub previous_type : AliasType
  pub size_bytes : ℕ

abbrev pub is_original : AliasType → Bool
is_original original = true
is_original _ = false

abbrev pub tmp_path : FilePath → Blake3Hash → FilePath
tmp_path dir hash = join dir (codes ".modeld_unlink_" ++ take 16 (as_hex hash) ++ codes ".tmp")

abbrev pub or_cleaned : FilePath → Result (Unit {0}) → M (Unit {0})
or_cleaned tmp (ok u) = pure tt
or_cleaned tmp (err e) = do try (remove_file tmp); throw e

-- The copy beside the file, and the rename over it.
abbrev pub replace_file : FilePath → FilePath → FilePath → M (Unit {0})
replace_file cas_path tmp path = do
  copy cas_path tmp
  renamed ← try (rename tmp path)
  or_cleaned tmp renamed

abbrev pub make_original : Alias → FilePath → M (Unit {0})
make_original alias path = do
  execute (delete_alias path)
  at ← now
  attempt (insert_alias at alias.model_hash path user original)
  pure tt

abbrev pub unlink_at : FilePath → Alias → FilePath → FilePath → M UnlinkResult
unlink_at path alias cas_path dir = do
  cas_size ← metadata_len cas_path
  replace_file cas_path (tmp_path dir alias.model_hash) path
  make_original alias path
  pure (record {
    path = path;
    hash = alias.model_hash;
    previous_type = alias.alias_type;
    size_bytes = cas_size;
  })

abbrev pub unlink_alias : FilePath → FilePath → Alias → M UnlinkResult
unlink_alias store_path path alias =
    if is_original alias.alias_type then throw already_original else do
      object ← gets (get (new store_path) alias.model_hash)
      cas_path ← or_throw not_found object
      dir ← or_throw not_found (parent path)
      unlink_at path alias cas_path dir

unfoldable pub unlink_path : FilePath → FilePath → M UnlinkResult
unlink_path store_path path = do
  found ← query (get_alias_by_path path)
  alias ← or_throw not_found found
  unlink_alias store_path path alias
