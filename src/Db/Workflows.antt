-- ===== src/Db/Workflows.antt =====
-- The statements of db.rs on `workflows` and `workflow_refs`.
use model_id.Base.{
  ℕ, ◌+◌, Bool, true, false, not, Option, none, some, List, [], ◌∷◌, ◌++◌, any, find, select, max,
  if◌then◌else◌, list_eq, nat_eq, ◌==◌, contains, ◌||◌, ◌&&◌,
}
use model_id.Base.Text.{Text, codes}
use model_id.Base.Results.{Result, ok, err, check_violation, foreign_key_violation}
use model_id.Hash.{Blake3Hash}
use model_id.Db.{Database, Model, WorkflowRecord, WorkflowRef}
use model_id.Db.Models.{◌=h◌, has_model}
use model_id.Db.Table.{update_where, delete_where, count_where, order_desc}

abbrev pub at_path : Text → WorkflowRecord → Bool
at_path path w = w.path == path

abbrev pub of_workflow : ℕ → WorkflowRef → Bool
of_workflow id r = r.workflow_id == id

abbrev pub to_model : Blake3Hash → WorkflowRef → Bool
to_model h r = elim r.model_hash [ none ↦ false | some k ↦ k =h h ]

-- What the update writes.
abbrev pub parsed_again : ℕ → Option Text → Option Text → WorkflowRecord → WorkflowRecord
parsed_again now file_hash title w = record w {
  file_hash = file_hash;
  title = title;
  parsed_at = now;
  last_seen_at = now;
}

-- The insert or the update of `upsert_workflow`.
unfoldable pub put_workflow : ℕ → Text → Option Text → Option Text → Database → Database
put_workflow now path file_hash title db =
    if any (at_path path) db.workflows
    then record db {
      workflows = update_where (at_path path) (parsed_again now file_hash title) db.workflows;
      workflow_seq = db.workflow_seq + 1;
    }
    else record db {
      workflows =
          db.workflows
          ++ record {
            id = db.workflow_seq + 1;
            path = path;
            file_hash = file_hash;
            title = title;
            parsed_at = now;
            last_seen_at = now;
            ref_count = 0;
          }
            ∷ [];
      workflow_seq = db.workflow_seq + 1;
      last_insert_rowid = db.workflow_seq + 1;
    }

unfoldable pub get_workflow : Text → Database → Option WorkflowRecord
get_workflow path db = find (at_path path) db.workflows

-- `SELECT id FROM workflows WHERE path = ?1`, which has a row after the insert
abbrev id_at : Text → Database → ℕ
id_at path db = elim (find (at_path path) db.workflows) [ none ↦ 0 | some w ↦ w.id ]

-- The larger of the connection's last row id and the id of the row.
unfoldable pub upsert_workflow : ℕ → Text → Option Text → Option Text → Database → ℕ × Database
unfolding put_workflow
upsert_workflow now path file_hash title db =
    let db' = put_workflow now path file_hash title db in
    (max db'.last_insert_rowid (id_at path db'), db')

unfoldable pub clear_workflow_refs : ℕ → Database → Database
clear_workflow_refs workflow_id db = record db {
  workflow_refs = delete_where (of_workflow workflow_id) db.workflow_refs;
}

abbrev pub model_known : Option Blake3Hash → List Model → Bool
model_known none ms = true
model_known (some h) ms = has_model h ms

-- The CHECK clause of the column `ref_type`.
abbrev pub ref_types : List Text
ref_types =
    codes "checkpoint"
    ∷ codes "lora"
    ∷ codes "vae"
    ∷ codes "clip"
    ∷ codes "controlnet"
    ∷ codes "ipadapter"
    ∷ codes "unet"
    ∷ codes "unknown"
    ∷ []

unfoldable pub insert_workflow_ref :
    ℕ → Option Blake3Hash → Text → Text → Option Text → Bool → Database → Result (ℕ × Database)
insert_workflow_ref workflow_id model_hash ref_type model_name model_path resolved db =
    if not (contains ref_types ref_type)
    then err check_violation
    else if not (any (λ (w : WorkflowRecord). w.id == workflow_id) db.workflows)
        || not (model_known model_hash db.models)
    then err foreign_key_violation
    else ok (
      db.workflow_ref_seq + 1,
      record db {
        workflow_refs =
            db.workflow_refs
            ++ record {
              id = db.workflow_ref_seq + 1;
              workflow_id = workflow_id;
              model_hash = model_hash;
              ref_type = ref_type;
              model_name = model_name;
              model_path = model_path;
              resolved = resolved;
            }
              ∷ [];
        workflow_ref_seq = db.workflow_ref_seq + 1;
        last_insert_rowid = db.workflow_ref_seq + 1;
      },
    )

unfoldable pub update_workflow_ref_count : ℕ → Database → Database
update_workflow_ref_count workflow_id db = record db {
  workflows =
      update_where (λ (w : WorkflowRecord). w.id == workflow_id)
        (λ (w : WorkflowRecord). record w {
          ref_count = count_where (of_workflow workflow_id) db.workflow_refs;
        })
        db.workflows;
}

unfoldable pub get_workflows_for_model : Blake3Hash → Database → List WorkflowRef
get_workflows_for_model h db = select (to_model h) db.workflow_refs

-- The rows of the JOIN on the workflow's id.
unfoldable pub get_refs_for_workflow : Text → Database → List WorkflowRef
get_refs_for_workflow path db =
    select
      (λ (r : WorkflowRef).
        any (λ (w : WorkflowRecord). of_workflow w.id r && at_path path w) db.workflows)
      db.workflow_refs

unfoldable pub orphan_models : Database → List Model
unfolding order_desc
orphan_models db =
    order_desc (λ (m : Model). m.size_bytes)
      (select (λ (m : Model). not (any (to_model m.blake3_hash) db.workflow_refs)) db.models)

unfoldable pub unresolved_refs : Database → List WorkflowRef
unresolved_refs db = select (λ (r : WorkflowRef). not r.resolved) db.workflow_refs
