-- ===== src/Db/Tests.antt =====
-- The theorems on the tables at small databases.
use model_id.Base.{◌≡◌, ◌≢◌, ◌↔◌, ◌≤◌, refl, false, none, some, [], ◌∷◌, nat_eq, list_eq}
use model_id.Base.Text.{codes}
use model_id.Base.Dict.{lookup}
use model_id.Hash.{Blake3Hash, from_hex, as_hex}
use model_id.Db.PathIndex.{get_all_indexed_paths, indexed_row, upsert_path_index}
use model_id.Db.PathIndex.Found.{upsert_path_index-get_all_indexed_paths}
use model_id.Db.{Database, Model, WorkflowRecord}
use model_id.Db.Models.{new_model, coalesce, insert_or_update_model, get_model}
use model_id.Db.Workflows.{get_workflow, put_workflow, upsert_workflow}
use model_id.Db.Table.{update_where}
use model_id.Db.Upsert.{upsert_workflow-id, insert_or_update_model-get_model}
use model_id.Db.Enums.{hardlink, comfy_ui}
use model_id.Db.Aliases.{insert_alias}
use model_id.Db.Integrity.{IsSound, Inserted, insert_alias-Inserted}
use model_id.Sys.Sample.{empty_db}

abbrev sample_workflow : WorkflowRecord
sample_workflow = record {
  id = 1;
  path = codes "/w.json";
  file_hash = none;
  title = none;
  parsed_at = 3;
  last_seen_at = 3;
  ref_count = 0;
}

-- A workflow and, inserted after it, a row with the id 7 in another table.
abbrev later_insert : Database
later_insert = record empty_db {
  workflows = sample_workflow ∷ [];
  workflow_seq = 1;
  alias_seq = 7;
  last_insert_rowid = 7;
}

upsert_workflow-id_example :
    (upsert_workflow 9 (codes "/w.json") none none later_insert).0 ≡ 1 ↔ 7 ≤ 1
unfolding get_workflow list_eq nat_eq
upsert_workflow-id_example =
    upsert_workflow-id 9 (codes "/w.json") none none later_insert sample_workflow refl

upsert_workflow_returns : (upsert_workflow 9 (codes "/w.json") none none later_insert).0 ≡ 7
unfolding upsert_workflow put_workflow update_where list_eq nat_eq
upsert_workflow_returns = refl

abbrev hash_a : Blake3Hash
hash_a = record { hex = codes "aa" }

abbrev one_model : Database
one_model = record empty_db {
  models = new_model 1 5 hash_a 7 (some (codes "gguf")) none none none ∷ [];
}

insert_or_update_model-get_model_example :
    ((m : Model) × (get_model hash_a
          (insert_or_update_model 6 hash_a 8 none none none none one_model).1
        ≡ some m)
      × (m.size_bytes ≡ 8)
      × (m.last_seen ≡ 6)
      × (m.pinned ≡ elim (get_model hash_a one_model) [ none ↦ false | some old ↦ old.pinned ])
      × (m.format
          ≡ coalesce none
              (elim (get_model hash_a one_model) [ none ↦ none | some old ↦ old.format ])))
    × ((g : Blake3Hash)
        → g.hex ≢ hash_a.hex
        → get_model g (insert_or_update_model 6 hash_a 8 none none none none one_model).1
          ≡ get_model g one_model)
insert_or_update_model-get_model_example =
    insert_or_update_model-get_model 6 hash_a 8 none none none none one_model

-- The model with one alias.
abbrev one_alias : Database
one_alias = record one_model {
  aliases =
      record {
        id = 1;
        model_hash = hash_a;
        path = codes "m" ∷ [];
        frontend = comfy_ui;
        alias_type = hardlink;
        created_at = 5;
      }
      ∷ [];
  alias_seq = 1;
}

one_alias-IsSound : IsSound one_alias
unfolding list_eq nat_eq
one_alias-IsSound = record { distinct = (refl, tt); known = (refl, tt) }

insert_alias-Inserted_example :
    Inserted hash_a
      (codes "n" ∷ [])
      one_alias
      (insert_alias 7 hash_a (codes "n" ∷ []) comfy_ui hardlink one_alias)
insert_alias-Inserted_example =
    insert_alias-Inserted 7 hash_a (codes "n" ∷ []) comfy_ui hardlink one_alias one_alias-IsSound

abbrev long_hash : Blake3Hash
long_hash = record {
  hex = codes "0123456789abcdef0123456789abcdef0123456789abcdef0123456789abcdef";
}

abbrev indexed_before : Database
indexed_before = record empty_db {
  models = new_model 1 5 long_hash 7 none none none none ∷ [];
  model_seq = 1;
}

upsert_path_index-get_all_indexed_paths_example :
    lookup (codes "a.bin" ∷ []) (
      get_all_indexed_paths (record indexed_before {
        path_index = indexed_row 9 (codes "a.bin" ∷ []) long_hash 7 1 2 3 ∷ [];
      }))
    ≡ some (record { hash = long_hash; size = 7; mtime = 1; inode = 2; device_id = 3 })
unfolding upsert_path_index from_hex as_hex list_eq nat_eq
upsert_path_index-get_all_indexed_paths_example =
    upsert_path_index-get_all_indexed_paths 9 (codes "a.bin" ∷ []) long_hash 7 1 2 3 indexed_before
      (record indexed_before {
        path_index = indexed_row 9 (codes "a.bin" ∷ []) long_hash 7 1 2 3 ∷ [];
      })
      refl refl
