-- ===== src/Db/Aliases.antt =====
-- The statements of db.rs on `aliases`.
use model_id.Base.{
  ℕ, ◌+◌, Bool, Option, List, [], ◌∷◌, ◌++◌, any, find, select, if◌then◌else◌, list_eq, nat_eq,
  ◌==◌,
}
use model_id.Base.Text.{Text}
use model_id.Base.Results.{Result, ok, err, unique_violation, foreign_key_violation}
use model_id.Hash.{Blake3Hash, as_hex}
use model_id.Db.{Database, Alias}
use model_id.Db.Enums.{AliasType, Frontend}
use model_id.Db.Models.{◌=h◌, has_model}
use model_id.Db.Table.{delete_where, count_where, order_asc}
use model_id.Db.Lexical.{order_text}

abbrev pub at_path : List Text → Alias → Bool
at_path path a = a.path == path

abbrev pub of_model : Blake3Hash → Alias → Bool
of_model hash a = a.model_hash =h hash

unfoldable pub insert_alias :
    ℕ → Blake3Hash → List Text → Frontend → AliasType → Database → Result (ℕ × Database)
insert_alias now model_hash path frontend alias_type db =
    if any (at_path path) db.aliases
    then err unique_violation
    else if has_model model_hash db.models
    then ok (
      db.alias_seq + 1,
      record db {
        aliases =
            db.aliases
            ++ record {
              id = db.alias_seq + 1;
              model_hash = model_hash;
              path = path;
              frontend = frontend;
              alias_type = alias_type;
              created_at = now;
            }
              ∷ [];
        alias_seq = db.alias_seq + 1;
        last_insert_rowid = db.alias_seq + 1;
      },
    )
    else err foreign_key_violation

unfoldable pub get_alias_by_path : List Text → Database → Option Alias
get_alias_by_path path db = find (at_path path) db.aliases

unfoldable pub get_aliases_for_model : Blake3Hash → Database → List Alias
unfolding order_asc
get_aliases_for_model model_hash db =
    order_asc (λ (a : Alias). a.created_at) (select (of_model model_hash) db.aliases)

unfoldable pub delete_alias : List Text → Database → Database
delete_alias path db = record db { aliases = delete_where (at_path path) db.aliases }

unfoldable pub count_aliases : Blake3Hash → Database → ℕ
count_aliases model_hash db = count_where (of_model model_hash) db.aliases

-- Returns the number of rows that went.
unfoldable pub delete_aliases_for_model : Blake3Hash → Database → ℕ × Database
delete_aliases_for_model hash db = (
  count_where (of_model hash) db.aliases,
  record db { aliases = delete_where (of_model hash) db.aliases },
)

-- Each model's aliases together, by their age.
unfoldable pub list_all_aliases : Database → List Alias
unfolding order_asc order_text
list_all_aliases db =
    order_text (λ (a : Alias). as_hex a.model_hash)
      (order_asc (λ (a : Alias). a.created_at) db.aliases)
