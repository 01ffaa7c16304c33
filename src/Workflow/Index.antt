-- ===== src/Workflow/Index.antt =====
-- `parse_workflow`, `index_workflow`, `resolve_model_ref` and `build_model_lookup` of
-- crates/modeld-core/src/workflow.rs, and `scan_workflow_refs` of crates/modeld-core/src/refs.rs. A hash
-- stands for its text, and a `HashMap` is a dictionary in some order.
use model_id.Base.{
  ℕ, ◌+◌, Bool, true, false, ◌&&◌, not, Option, none, some, List, [], ◌∷◌, ◌++◌, find, select,
  if◌then◌else◌, list_eq, nat_eq, ◌==◌,
}
use model_id.Base.Text.{Text, codes, split}
use model_id.Base.Dict.{Dict, lookup, insert}
use model_id.Base.Results.{Result, ok, err, parse_error}
use model_id.Hash.{Blake3Hash, as_hex}
use model_id.Hash.Reading.{hash_file}
use model_id.Db.{Database, Model, Alias}
use model_id.Db.Models.{list_models}
use model_id.Db.Aliases.{list_all_aliases}
use model_id.Db.Workflows.{
  upsert_workflow, clear_workflow_refs, insert_workflow_ref, update_workflow_ref_count,
}
use model_id.Scanner.{is_empty, last_part}
use model_id.Dedup.{path_text}
use model_id.Sys.{FilePath, M, pure, throw, try, now, ◌>>=◌, ◌>>◌}
use model_id.Sys.Files.{read_to_string, file_name}
use model_id.Sys.Tables.{query, execute, attempt}
use model_id.Workflow.{Value, ModelRef, ParsedWorkflow, or_else, parsed}

-- What a reference was resolved to.
pub record Resolved : Type 0 where
  pub hash : Option Blake3Hash
  pub model_path : Option Text
  pub resolved : Bool

abbrev pub Lookup : Type 0
Lookup = Dict Text Blake3Hash

abbrev pub resolved_to : Option Blake3Hash → Resolved
resolved_to none = record { hash = none; model_path = none; resolved = false }
resolved_to (some h) = record { hash = some h; model_path = none; resolved = true }

-- `rsplit('/').next()`
abbrev pub basename : Text → Text
basename name = last_part (split b'/' name)

abbrev pub of_json : Option Value → M Value
of_json none = throw parse_error
of_json (some json) = pure json

abbrev pub hash_text : Result Blake3Hash → Option Text
hash_text (ok h) = some (as_hex h)
hash_text (err e) = none

abbrev pub with_id : ℕ × Database → Result (ℕ × Database)
with_id (id, db) = ok (id, db)

-- `entry(key).or_insert(hash)`
abbrev pub or_insert : Text → Blake3Hash → Lookup → Lookup
or_insert key hash map = elim (lookup key map) [ none ↦ insert key hash map | some old ↦ map ]

-- `Path::new(text).file_name()`
abbrev pub name_of : Text → Option Text
name_of s =
    let name = last_part (select (λ c. not (is_empty c) && not (c == codes ".")) (split b'/' s)) in
    if is_empty name then none else if name == codes ".." then none else some name

abbrev pub index_name : Option Text → Blake3Hash → Lookup → Lookup
index_name none hash map = map
index_name (some name) hash map = or_insert name hash map

abbrev pub index_format : Option Text → Blake3Hash → Lookup → Lookup
index_format none hash map = map
index_format (some fmt) hash map = index_name (name_of fmt) hash (or_insert fmt hash map)

unfoldable pub index_models : List Model → Lookup → Lookup
unfolding insert lookup split
index_models [] map = map
index_models (m ∷ ms) map =
    index_models ms
      (index_format m.format m.blake3_hash (insert (as_hex m.blake3_hash) m.blake3_hash map))

abbrev pub file_name_of : FilePath → Option Text
file_name_of p = let name = file_name p in if is_empty name then none else some name

unfoldable pub index_aliases : List Alias → Lookup → Lookup
unfolding insert lookup path_text file_name
index_aliases [] map = map
index_aliases (a ∷ rest) map =
    index_aliases rest (
      index_name (file_name_of a.path) a.model_hash (or_insert (path_text a.path) a.model_hash map))

unfoldable pub build_model_lookup : M Lookup
unfolding index_models index_aliases
build_model_lookup = do
  models ← query (list_models none)
  aliases ← query list_all_aliases
  pure (index_aliases aliases (index_models models []))

pub record Indexed : Type 0 where
  pub id : ℕ
  pub resolved_count : ℕ
  pub unresolved_count : ℕ

abbrev pub count : Bool → Indexed → Indexed
count true r = record r { resolved_count = r.resolved_count + 1 }
count false r = record r { unresolved_count = r.unresolved_count + 1 }

-- One round of the loop over the references.
abbrev pub insert_ref : ModelRef → Resolved → ℕ → M ℕ
insert_ref r found id =
    attempt
      (insert_workflow_ref id found.hash r.ref_type r.model_name found.model_path found.resolved)

module _ (to_lowercase : Text → Text) where
  -- The entry whose name is that of the reference but for the case.
  abbrev pub same_name : Text → Text × Blake3Hash → Bool
  same_name name (k, h) = to_lowercase (basename k) == to_lowercase name

  abbrev pub value_of : Option (Text × Blake3Hash) → Option Blake3Hash
  value_of none = none
  value_of (some (k, h)) = some h

  unfoldable pub resolve_model_ref : Text → Lookup → Resolved
  unfolding lookup split
  resolve_model_ref model_name map = resolved_to (
      or_else (lookup model_name map) (
        or_else (lookup (basename model_name) map)
          (value_of (find (same_name (basename model_name)) map))))

  unfoldable pub insert_refs : Lookup → List ModelRef → Indexed → M Indexed
  unfolding resolve_model_ref
  insert_refs map [] counts = pure counts
  insert_refs map (r ∷ refs) counts = do
    insert_ref r (resolve_model_ref r.model_name map) counts.id
    insert_refs map refs (count (resolve_model_ref r.model_name map).resolved counts)

  module _ (from_str : Text → Option Value) where
    unfoldable pub parse_workflow : FilePath → M ParsedWorkflow
    unfolding parsed
    parse_workflow path = do
      content ← read_to_string path
      json ← of_json (from_str content)
      pure (parsed to_lowercase path json)

    unfoldable pub index_workflow : (Text → Blake3Hash) → FilePath → Lookup → M Indexed
    unfolding parse_workflow insert_refs hash_file path_text
    index_workflow blake3 path map = do
      workflow ← parse_workflow path
      file_hash ← try (hash_file blake3 path)
      at ← now
      id ← attempt (λ db.
          with_id (upsert_workflow at (path_text path) (hash_text file_hash) workflow.title db))
      execute (clear_workflow_refs id)
      counts ←
          insert_refs map (workflow.refs ++ workflow.unresolved)
            (record { id = id; resolved_count = 0; unresolved_count = 0 })
      execute (update_workflow_ref_count id)
      pure counts

    unfoldable pub scan_workflow_refs : (Text → Blake3Hash) → FilePath → M ℕ
    unfolding build_model_lookup index_workflow
    scan_workflow_refs blake3 path = do
      map ← build_model_lookup
      counts ← index_workflow blake3 path map
      pure (counts.resolved_count + counts.unresolved_count)
