-- ===== src/Workflow/Tests.antt =====
-- Workflows on small tables.
use model_id.Base.{◌≡◌, refl, true, none, some, [], ◌∷◌, list_eq, nat_eq}
use model_id.Base.Text.{Text, codes, trim}
use model_id.Base.Dict.{lookup}
use model_id.Hash.{Blake3Hash, as_hex, prefix}
use model_id.Db.{Database}
use model_id.Db.Models.{new_model}
use model_id.Db.Table.{count_where, update_where, delete_where}
use model_id.Db.Workflows.{
  to_model, clear_workflow_refs, insert_workflow_ref, update_workflow_ref_count, upsert_workflow,
}
use model_id.Sys.Tables.{attempt, execute}
use model_id.Sys.Files.{read_to_string, metadata_len}
use model_id.Sys.{FilePath, World, file, fine, call, now, ◌>>=◌}
use model_id.Sys.Results.{Ends}
use model_id.Sys.Sample.{empty_db, store, world}
use model_id.Quarantine.Codec.{codec}
use model_id.Cas.{path_for_hash}
use model_id.Gc.{new, run_safe}
use model_id.Workflow.{Value, string, array, object, item, nil, field, end, extract_model_refs}
use model_id.Workflow.Index.{Lookup, resolve_model_ref, index_workflow}
use model_id.Base.{length}
use model_id.Db.Workflows.{get_workflow}
use model_id.Dedup.{path_text}
use model_id.Workflow.Indexed.{IsIndexed, IsOfPath, index_workflow-IsIndexed}
use model_id.Workflow.Kept.{index_workflow-run_safe, index_workflow-refused}

abbrev node : Text → Text → Text → Value
node node_type key name = object (
    field (codes "type") (string node_type)
      (field (codes "inputs") (object (field key (string name) end)) end))

abbrev nodes : Value → Value
nodes v = object (field (codes "nodes") (array (item v nil)) end)

abbrev lora : Value
lora = nodes (node (codes "loraloader") (codes "lora_name") (codes " sub\\a.pt "))

abbrev upscale : Value
upscale = nodes (node (codes "UpscaleModelLoader") (codes "model_name") (codes "up.pth"))

-- `to_lowercase` of a text without capitals
abbrev lower : Text → Text
lower s = s

lora_refs :
    extract_model_refs lower lora
    ≡ record {
      node_type = codes "loraloader";
      ref_type = codes "lora";
      model_name = codes "sub/a.pt";
      is_known = true;
    }
      ∷ []
unfolding extract_model_refs trim list_eq nat_eq
lora_refs = refl

abbrev hash : Blake3Hash
hash = record { hex = codes "abcdabcdabcdabcdabcdabcdabcdabcdabcdabcdabcdabcdabcdabcdabcdabcd" }

abbrev path : FilePath
path = codes "w.json" ∷ []

abbrev one_model : Database
one_model = record empty_db {
  models = new_model 1 5 hash 7 none none none none ∷ [];
  model_seq = 1;
}

abbrev sample : World
sample =
    world
      ((path, file (codes "{}"))
        ∷ (path_for_hash (new store).cas hash, file (codes "weights"))
        ∷ [])
      one_model (fine ∷ [])

abbrev table : Lookup
table = (codes "a.pt", hash) ∷ []

index_workflow-IsIndexed_example :
    Ends
      (λ c v.
        IsOfPath (path_text path) c.id (length (extract_model_refs lower lora)) v.db
        × IsIndexed lower table (extract_model_refs lower lora) one_model c v.db)
      (λ _. Unit)
      (index_workflow lower (λ s. some lora) (λ t. hash) path table sample)
unfolding lookup list_eq nat_eq get_workflow
index_workflow-IsIndexed_example =
    index_workflow-IsIndexed lower (λ s. some lora) (λ t. hash) path table (codes "{}") lora sample
      refl refl (λ old e. cc)

index_workflow-run_safe_example :
    Ends
      (λ _ v.
        lookup (path_for_hash (new store).cas hash) (run_safe codec (new store) v).1.fs
        ≡ some (file (codes "weights")))
      (λ _. Unit)
      (index_workflow lower (λ s. some lora) (λ t. hash) path table sample)
unfolding lookup list_eq nat_eq extract_model_refs resolve_model_ref trim path_for_hash as_hex
    prefix
index_workflow-run_safe_example =
    index_workflow-run_safe lower (λ s. some lora) (λ t. hash) path table codec store hash
      (codes "weights") (codes "{}") lora sample refl refl refl refl

index_workflow-refused_example :
    Ends
      (λ _ _. ⊥)
      (λ _. Unit)
      (index_workflow lower (λ s. some upscale) (λ t. hash) path table sample)
unfolding lookup list_eq nat_eq extract_model_refs trim
index_workflow-refused_example =
    index_workflow-refused lower (λ s. some upscale) (λ t. hash) path table (codes "{}") upscale
      sample refl refl refl

-- A workflow with a reference that is indexed again with an upscaler in it has lost its reference.
abbrev indexed : World
indexed = (index_workflow lower (λ s. some lora) (λ t. hash) path table sample).1

abbrev indexed_again : World
indexed_again = (index_workflow lower (λ s. some upscale) (λ t. hash) path table indexed).1

lost_reference :
    (count_where (to_model hash) indexed.db.workflow_refs ≡ 1)
    × (count_where (to_model hash) indexed_again.db.workflow_refs ≡ 0)
unfolding index_workflow clear_workflow_refs insert_workflow_ref update_workflow_ref_count
    upsert_workflow attempt execute now call ◌>>=◌ read_to_string metadata_len trim lookup list_eq
    nat_eq extract_model_refs resolve_model_ref update_where delete_where count_where
lost_reference = (refl, refl)
