-- ===== src/Workflow/Kept.antt =====
-- What `index_workflow` (crates/modeld-core/src/workflow.rs) means for the collector, and which
-- workflows it refuses.
use model_id.Base.{
  ◌≡◌, sym, ◌∙◌, inl, inr, true, false, not, Option, none, some, List, [], ◌∷◌, any, list_eq,
  nat_eq,
}
use model_id.Base.Text.{Text}
use model_id.Base.Dict.{lookup}
use model_id.Hash.{Blake3Hash}
use model_id.Db.{Database}
use model_id.Quarantine.{Serde}
use model_id.Cas.{path_for_hash}
use model_id.Gc.{new, run_safe}
use model_id.Gc.Safe.{run_safe-Kept}
use model_id.Sys.{FilePath, Fs, World, file}
use model_id.Fsck.Reads.{hash_file-Keeps}
use model_id.Sys.Keeps.{Keeps, Keeps-now, Keeps-try, Keeps-bind, Keeps-pure, Keeps-throw}
use model_id.Sys.Apart.{read-Keeps, attempt-Keeps_files, execute-Keeps_files}
use model_id.Sys.Results.{Ends, Ends-mono, Ends-and}
use model_id.Workflow.{Value, ModelRef, extract_model_refs}
use model_id.Workflow.Index.{Lookup, Indexed, of_json, insert_refs, parse_workflow, index_workflow}
use model_id.Workflow.Rows.{is_legal, resolves_to, found}
use model_id.Workflow.Indexed.{index_workflow-Ends}

of_json-Keeps : {P : Fs → Database → Type 0} (o : Option Value) → Keeps P (of_json o)
of_json-Keeps none = Keeps-throw _
of_json-Keeps (some j) = Keeps-pure j

module _ (to_lowercase : Text → Text) (from_str : Text → Option Value) (blake3 : Text → Blake3Hash)
    (path : FilePath) (map : Lookup) where
  insert_refs-Keeps_files :
      {P : Fs → Type 0} (refs : List ModelRef) (c : Indexed)
      → Keeps (λ fs _. P fs) (insert_refs to_lowercase map refs c)
  unfolding insert_refs
  insert_refs-Keeps_files [] c = Keeps-pure c
  insert_refs-Keeps_files (r ∷ refs) c =
      Keeps-bind _ _ (attempt-Keeps_files _) λ _. insert_refs-Keeps_files refs _

  index_workflow-Keeps_files :
      {P : Fs → Type 0}
      → Keeps (λ fs _. P fs) (index_workflow to_lowercase from_str blake3 path map)
  unfolding index_workflow parse_workflow
  index_workflow-Keeps_files =
      Keeps-bind _ _
        (Keeps-bind _ _ (read-Keeps path)
          λ t. Keeps-bind _ _ (of_json-Keeps (from_str t)) λ j. Keeps-pure _)
        λ wf. Keeps-bind _ _ (Keeps-try _ (hash_file-Keeps blake3 path)) λ fh.
          Keeps-bind _ _ Keeps-now λ at. Keeps-bind _ _ (attempt-Keeps_files _) λ id.
            Keeps-bind _ _ (execute-Keeps_files _) λ _.
              Keeps-bind _ _ (insert_refs-Keeps_files _ _)
                λ c. Keeps-bind _ _ (execute-Keeps_files _) λ _. Keeps-pure c

  -- After `index_workflow` returned, a run of the collector leaves the object of each hash as it is
  -- that a reference of the workflow was resolved to, whatever calls fail.
  pub index_workflow-run_safe :
      (json_codec : Serde) (store : FilePath) (h : Blake3Hash) (t : Text) (content : Text)
      (json : Value) (w : World)
      → lookup path w.fs ≡ some (file content)
      → from_str content ≡ some json
      → any (λ r. resolves_to h (found to_lowercase map r)) (extract_model_refs to_lowercase json)
        ≡ true
      → lookup (path_for_hash (new store).cas h) w.fs ≡ some (file t)
      → Ends
          (λ _ v.
            lookup (path_for_hash (new store).cas h) (run_safe json_codec (new store) v).1.fs
            ≡ some (file t))
          (λ _. Unit)
          (index_workflow to_lowercase from_str blake3 path map w)
  index_workflow-run_safe json_codec store h t content json w there reads names object =
      Ends-mono
        (Ends-and {P = λ fs _. lookup (path_for_hash (new store).cas h) fs ≡ some (file t)} _ w
          (index_workflow-Ends to_lowercase from_str blake3 path map content json w there reads)
          index_workflow-Keeps_files object)
        (λ c v (((_, _, _, kept, _), _), g).
          run_safe-Kept json_codec store h t v (inr (inl (kept h names))) g)
        (λ v _. tt)

  -- A workflow one of whose references has a type that the schema does not admit is never indexed.
  pub index_workflow-refused :
      (content : Text) (json : Value) (w : World)
      → lookup path w.fs ≡ some (file content)
      → from_str content ≡ some json
      → any (λ r. not (is_legal r)) (extract_model_refs to_lowercase json) ≡ true
      → Ends (λ _ _. ⊥) (λ _. Unit) (index_workflow to_lowercase from_str blake3 path map w)
  index_workflow-refused content json w there reads illegal =
      Ends-mono
        (index_workflow-Ends to_lowercase from_str blake3 path map content json w there reads)
        (λ c v ((_, _, _, _, legal), _). clash (sym illegal ∙ legal)) (λ v x. x)
    where
      clash : true ≡ false → ⊥
      clash e = cc
