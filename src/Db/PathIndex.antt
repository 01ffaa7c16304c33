-- ===== src/Db/PathIndex.antt =====
-- The statements of db.rs on `path_index`.
pub mod Found
use model_id.Base.{
  ℕ, Bool, true, false, List, [], ◌∷◌, ◌++◌, any, if◌then◌else◌, list_eq, nat_eq, ◌==◌,
}
use model_id.Base.Text.{Text}
use model_id.Base.Dict.{Dict, insert}
use model_id.Base.Results.{Result, ok, err, foreign_key_violation}
use model_id.Hash.{Blake3Hash, as_hex, from_hex}
use model_id.Db.{Database, PathIndexRow}
use model_id.Db.Enums.{indexed, missing, changed}
use model_id.Db.Models.{has_model}
use model_id.Db.Table.{update_where}

pub record FileIndexEntry : Type 0 where
  pub hash : Blake3Hash
  pub size : ℕ
  pub mtime : ℕ
  pub inode : ℕ
  pub device_id : ℕ

abbrev pub is_indexed : PathIndexRow → Bool
is_indexed r = elim r.scan_status [ indexed ↦ true | missing ↦ false | changed ↦ false ]

abbrev pub entry_of : PathIndexRow → Blake3Hash → FileIndexEntry
entry_of r hash = record {
  hash = hash;
  size = r.size;
  mtime = r.mtime;
  inode = r.inode;
  device_id = r.device_id;
}

abbrev pub put_entry :
    PathIndexRow
    → Result Blake3Hash
    → Dict (List Text) FileIndexEntry
    → Dict (List Text) FileIndexEntry
put_entry r (ok hash) map = insert r.path (entry_of r hash) map
put_entry r (err e) map = map

-- The loop that fills the map; a hash that cannot be read is passed over.
unfoldable pub index_rows :
    List PathIndexRow → Dict (List Text) FileIndexEntry → Dict (List Text) FileIndexEntry
unfolding insert from_hex
index_rows [] map = map
index_rows (r ∷ rows) map =
    index_rows rows (if is_indexed r then put_entry r (from_hex (as_hex r.hash)) map else map)

unfoldable pub get_all_indexed_paths : Database → Dict (List Text) FileIndexEntry
unfolding index_rows
get_all_indexed_paths db = index_rows db.path_index []

abbrev pub indexed_at : List Text → PathIndexRow → Bool
indexed_at path r = r.path == path

abbrev pub indexed_row : ℕ → List Text → Blake3Hash → ℕ → ℕ → ℕ → ℕ → PathIndexRow
indexed_row now path hash size mtime inode device_id = record {
  path = path;
  hash = hash;
  size = size;
  mtime = mtime;
  inode = inode;
  device_id = device_id;
  last_seen = now;
  scan_status = indexed;
}

-- `ON CONFLICT(path) DO UPDATE`, which sets every column
unfoldable pub upsert_path_index :
    ℕ → List Text → Blake3Hash → ℕ → ℕ → ℕ → ℕ → Database → Result Database
upsert_path_index now path hash size mtime inode device_id db =
    let row = indexed_row now path hash size mtime inode device_id in
    if has_model hash db.models
    then ok (record db {
      path_index =
          if any (indexed_at path) db.path_index
          then update_where (indexed_at path) (λ r. row) db.path_index
          else db.path_index ++ row ∷ [];
    })
    else err foreign_key_violation

-- One statement of `mark_paths_missing`.
unfoldable pub mark_path_missing : ℕ → List Text → Database → Database
mark_path_missing now path db = record db {
  path_index =
      update_where (indexed_at path) (λ r. record r { scan_status = missing; last_seen = now })
        db.path_index;
}
