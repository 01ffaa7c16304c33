-- ===== src/Db/Groups.antt =====
-- `find_duplicate_groups` of db.rs.
use model_id.Base.{
  ℕ, Bool, Option, none, some, List, [], ◌∷◌, ◌++◌, select, length, leb, if◌then◌else◌, list_eq,
  nat_eq,
}
use model_id.Base.Text.{Text}
use model_id.Base.Dict.{Dict, lookup, insert, erase}
use model_id.Db.Lexical.{order_text}
use model_id.Hash.{Blake3Hash, as_hex}
use model_id.Db.{Database, Model, Alias}
use model_id.Db.Table.{count_where, order_asc}
use model_id.Db.Aliases.{of_model}

-- `HAVING COUNT(*) >= 2`
abbrev pub has_two : Database → Blake3Hash → Bool
has_two db hash = leb 2 (count_where (of_model hash) db.aliases)

-- The second statement: the aliases of those models, by model and then by time.
abbrev pub alias_rows : Database → List Alias
alias_rows db =
    order_text (λ (a : Alias). as_hex a.model_hash)
      (order_asc (λ (a : Alias). a.created_at)
        (select (λ (a : Alias). has_two db a.model_hash) db.aliases))

-- The first statement.
abbrev pub model_rows : Database → List Model
model_rows db =
    order_text (λ (m : Model). as_hex m.blake3_hash)
      (select (λ (m : Model). has_two db m.blake3_hash) db.models)

abbrev pub or_default : Option (List Alias) → List Alias
or_default none = []
or_default (some xs) = xs

-- The aliases by the hash of their model.
unfoldable pub by_hash : List Alias → Dict Text (List Alias) → Dict Text (List Alias)
unfolding lookup insert
by_hash [] d = d
by_hash (a ∷ rows) d =
    by_hash rows
      (insert (as_hex a.model_hash) (or_default (lookup (as_hex a.model_hash) d) ++ a ∷ []) d)

abbrev pub Group : Type 0
Group = Blake3Hash × ℕ × List Alias

abbrev pub onto_groups : Model → Option (List Alias) → List Group → List Group
onto_groups m none rest = rest
onto_groups m (some xs) rest =
    if leb 2 (length xs) then (m.blake3_hash, m.size_bytes, xs) ∷ rest else rest

-- The closure of `filter_map`, which takes a group out of the map.
unfoldable pub take_groups : List Model → Dict Text (List Alias) → List Group
unfolding lookup erase
take_groups [] d = []
take_groups (m ∷ ms) d =
    onto_groups m (lookup (as_hex m.blake3_hash) d)
      (take_groups ms (erase (as_hex m.blake3_hash) d))

unfoldable pub find_duplicate_groups : Database → List Group
unfolding count_where order_asc order_text by_hash take_groups
find_duplicate_groups db = take_groups (model_rows db) (by_hash (alias_rows db) [])
