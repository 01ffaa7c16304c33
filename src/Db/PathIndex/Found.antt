-- ===== src/Db/PathIndex/Found.antt =====
-- What `get_all_indexed_paths` of db.rs finds after `upsert_path_index`.
use model_id.Base.{
  ℕ, ◌≡◌, refl, sym, ap, subst, ◌∙◌, Bool, true, false, ◌||◌, some, List, [], ◌∷◌, ◌++◌, arith, any,
  any-append, All, All-append, if◌then◌else◌, list_eq, nat_eq, ==_refl,
}
use model_id.Base.Text.{Text}
use model_id.Base.Dict.{Dict, lookup, lookup-insert}
use model_id.Base.Results.{Result, ok, err, foreign_key_violation}
use model_id.Hash.{Blake3Hash, as_hex, from_hex}
use model_id.Db.{Database, PathIndexRow}
use model_id.Db.Enums.{indexed}
use model_id.Db.Models.{has_model}
use model_id.Db.Table.{update_where, All-update_where}
use model_id.Db.PathIndex.{
  FileIndexEntry, is_indexed, entry_of, put_entry, index_rows, get_all_indexed_paths, indexed_at,
  indexed_row, upsert_path_index,
}

module _ (row : PathIndexRow) (is_new : row.scan_status ≡ indexed)
    (readable : from_hex (as_hex row.hash) ≡ ok row.hash) where
  abbrev Only : List PathIndexRow → Type 0
  Only rows = All (λ (r : PathIndexRow). indexed_at row.path r ≡ true → r ≡ row) rows

  abbrev Found : Dict (List Text) FileIndexEntry → Type 0
  Found map = lookup row.path map ≡ some (entry_of row row.hash)

  abbrev step : PathIndexRow → Dict (List Text) FileIndexEntry → Dict (List Text) FileIndexEntry
  step r map = if is_indexed r then put_entry r (from_hex (as_hex r.hash)) map else map

  step-other :
      (r : PathIndexRow) (map : Dict (List Text) FileIndexEntry)
      → indexed_at row.path r ≡ false
      → lookup row.path (step r map) ≡ lookup row.path map
  step-other r map e = by_test (is_indexed r) (from_hex (as_hex r.hash))
    where
      by_test :
          (b : Bool) (h : Result Blake3Hash)
          → lookup row.path (if b then put_entry r h map else map) ≡ lookup row.path map
      by_test false h = refl
      by_test true (err x) = refl
      by_test true (ok h) = ground (arith, e, lookup-insert row.path r.path (entry_of r h) map)

  step-row : (map : Dict (List Text) FileIndexEntry) → Found (step row map)
  step-row map =
      rw (is_new, readable)
        (ground
          (arith, lookup-insert row.path row.path (entry_of row row.hash) map, ==_refl row.path))

  index_rows-Found :
      (rows : List PathIndexRow) (map : Dict (List Text) FileIndexEntry) (b : Bool)
      → Only rows
      → (b ≡ true → Found map)
      → (b || any (indexed_at row.path) rows) ≡ true
      → Found (index_rows rows map)
  unfolding index_rows
  index_rows-Found [] map b _ h e = h (ground (arith, e))
  index_rows-Found (r ∷ rows) map b (only, onlys) h e =
      by_test (indexed_at row.path r) refl (index_rows-Found rows (step r map))
    where
      by_test :
          (c : Bool)
          → indexed_at row.path r ≡ c
          → ((b : Bool)
              → Only rows
              → (b ≡ true → Found (step r map))
              → (b || any (indexed_at row.path) rows) ≡ true
              → Found (index_rows rows (step r map)))
          → Found (index_rows rows (step r map))
      by_test true k rest =
          rest true onlys (λ _. subst (λ x. Found (step x map)) (sym (only k)) (step-row map)) refl
      by_test false k rest = rest b onlys (λ q. step-other r map k ∙ h q) (ground (arith, k, e))

-- After `upsert_path_index` returned, the map of the indexed paths has the entry that was given, if
-- the hash is one that can be read.
pub upsert_path_index-get_all_indexed_paths :
    (now : ℕ) (path : List Text) (hash : Blake3Hash) (size mtime inode device_id : ℕ)
    (db db' : Database)
    → from_hex (as_hex hash) ≡ ok hash
    → upsert_path_index now path hash size mtime inode device_id db ≡ ok db'
    → lookup path (get_all_indexed_paths db')
      ≡ some
          (record { hash = hash; size = size; mtime = mtime; inode = inode; device_id = device_id })
unfolding upsert_path_index get_all_indexed_paths update_where
upsert_path_index-get_all_indexed_paths now path hash size mtime inode device_id db db' readable e =
    by_test (has_model hash db.models) (any (indexed_at path) db.path_index) refl e
  where
    row : PathIndexRow
    row = indexed_row now path hash size mtime inode device_id

    after : List PathIndexRow → Database
    after rows = record db { path_index = rows }

    rows_of : {a b : Database} → ok a ≡ ok b → a.path_index ≡ b.path_index
    rows_of k = cc

    found :
        (rows : List PathIndexRow)
        → Only row refl readable rows
        → any (indexed_at path) rows ≡ true
        → lookup path (index_rows rows []) ≡ some (entry_of row hash)
    found rows only there = index_rows-Found row refl readable rows [] false only (λ k. cc) there

    clash : {x : Bool} → x ≡ false → x ≡ true → ⊥
    clash p q = false_true (sym p ∙ q)
      where
        false_true : false ≡ true → ⊥
        false_true k = cc

    each : (xs : List PathIndexRow) → All (λ _. Unit {0}) xs
    each [] = tt
    each (x ∷ xs) = (tt, each xs)

    updated :
        (xs : List PathIndexRow)
        → any (indexed_at path) xs ≡ true
        → any (indexed_at path) (update_where (indexed_at path) (λ r. row) xs) ≡ true
    updated [] k = k
    updated (x ∷ xs) k = ground (arith, k, updated xs, ==_refl path)

    none_there :
        (xs : List PathIndexRow) → any (indexed_at path) xs ≡ false → Only row refl readable xs
    none_there [] k = tt
    none_there (x ∷ xs) k =
        (λ q. absurd (clash k (ground (arith, q))), none_there xs (ground (arith, k)))

    by_test :
        (b c : Bool)
        → any (indexed_at path) db.path_index ≡ c
        → (if b
            then ok (
                after (
                  if c
                  then update_where (indexed_at path) (λ r. row) db.path_index
                  else db.path_index ++ row ∷ []))
            else err foreign_key_violation)
          ≡ ok db'
        → lookup path (index_rows db'.path_index []) ≡ some (entry_of row hash)
    by_test false c k e = cc
    by_test true true k e =
        ap (λ rows. lookup path (index_rows rows [])) (sym (rows_of e))
        ∙ found (update_where (indexed_at path) (λ r. row) db.path_index)
            (All-update_where (λ _. Unit {0})
              (λ (r : PathIndexRow). indexed_at path r ≡ true → r ≡ row) (indexed_at path)
              (λ r. row) db.path_index (λ x q u z. refl) (λ x q u z. absurd (clash q z))
              (each db.path_index))
            (updated db.path_index k)
    by_test true false k e =
        ap (λ rows. lookup path (index_rows rows [])) (sym (rows_of e))
        ∙ found (db.path_index ++ row ∷ [])
            (All-append (λ (r : PathIndexRow). indexed_at path r ≡ true → r ≡ row) db.path_index
              (row ∷ []) (none_there db.path_index k) (λ _. refl, tt))
            (any-append (indexed_at path) db.path_index (row ∷ []) ∙ ground (arith, ==_refl path))
