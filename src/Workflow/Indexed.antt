-- ===== src/Workflow/Indexed.antt =====
-- What the tables hold after `index_workflow` (crates/modeld-core/src/workflow.rs), and what this means
-- for the collector.
use model_id.Base.{
  ℕ, ◌+◌, ◌≤◌, ◌≡◌, ◌≢◌, refl, sym, ap, subst, ◌∙◌, Bool, true, false, not, Option, none, some,
  List, [], ◌++◌, arith, any, find, length, select, if◌then◌else◌, ◌∷◌, ◌==◌, list_eq, nat_eq,
  ==_iff,
}
use model_id.Base.Text.{Text}
use model_id.Base.Dict.{lookup}
use model_id.Base.Results.{Result, ok}
use model_id.Hash.{Blake3Hash}
use model_id.Db.{Database, WorkflowRecord, WorkflowRef}
use model_id.Db.Upsert.{IsCurrent, HasRow, upsert_workflow-HasRow}
use model_id.Db.Table.{
  count_where, update_where, delete_where, count_where-append, count_where-delete_where,
  count_where-delete_where_self,
}
use model_id.Db.Workflows.{
  at_path, get_workflow, of_workflow, to_model, put_workflow, upsert_workflow, clear_workflow_refs,
  update_workflow_ref_count,
}
use model_id.Dedup.{path_text}
use model_id.Sys.{FilePath, World, Node, file, dir}
use model_id.Fsck.Reads.{hash_file-Keeps}
use model_id.Sys.Keeps.{Keeps-now, Keeps-try}
use model_id.Sys.Apart.{attempt-Ends, execute-Ends, read-Keeps}
use model_id.Sys.Results.{
  Ends, Ends-pure, Ends-bind, Ends-and, Ends-mono, Keeps-then, read_to_string-Ends,
}
use model_id.Workflow.{Value, ModelRef, ParsedWorkflow, parsed, extract_model_refs}
use model_id.Workflow.Index.{Lookup, Indexed, with_id, hash_text, parse_workflow, index_workflow}
use model_id.Workflow.Rows.{
  is_legal, resolves_to, outcome, second, found, rows_of, Inserts, insert_refs-Ends, count_rows,
  count_others, count_resolved, tally_sum, tally-id, length-partition, any-partition,
}

-- Neither the insert nor the update of a workflow touches the references.
upserted :
    (at id : ℕ) (path : Text) (file_hash title : Option Text) (db after : Database)
    → with_id (upsert_workflow at path file_hash title db) ≡ outcome id after
    → after.workflow_refs ≡ db.workflow_refs
unfolding upsert_workflow put_workflow second
upserted at id path file_hash title db after e =
    ap (λ x. (second x db).workflow_refs) (sym e) ∙ ground arith

put_HasRow :
    (at id : ℕ) (path : Text) (file_hash title : Option Text) (db after : Database)
    → with_id (upsert_workflow at path file_hash title db) ≡ outcome id after
    → IsCurrent path db
    → HasRow path id after
put_HasRow at id path file_hash title db after e current =
    subst (λ (x : ℕ × Database). HasRow path x.0 x.1) (same e)
      (upsert_workflow-HasRow at path file_hash title db current)
  where
    same : {x y : ℕ × Database} → ok x ≡ ok y → x ≡ y
    same p = cc

-- The number of references is written to the rows with the id.
counted :
    (path : Text) (id n : ℕ) (rows : List WorkflowRecord) (row : WorkflowRecord)
    → find (at_path path) rows ≡ some row
    → row.id ≡ id
    → (r : WorkflowRecord) × (find (at_path path) (
          update_where
            (λ (w : WorkflowRecord). w.id == id)
            (λ (w : WorkflowRecord). record w { ref_count = n })
            rows)
        ≡ some r)
      × (r.id ≡ id)
      × (r.ref_count ≡ n)
unfolding update_where
counted path id n [] row e k = cc
counted path id n (x ∷ rows) row e k =
    by_tests (at_path path x) (x.id == id) refl refl e (counted path id n rows row)
  where
    same : {a b : WorkflowRecord} → some a ≡ some b → a ≡ b
    same p = cc

    by_tests :
        (a b : Bool)
        → at_path path x ≡ a
        → (x.id == id) ≡ b
        → (if a then some x else find (at_path path) rows) ≡ some row
        → (find (at_path path) rows ≡ some row
            → row.id ≡ id
            → (r : WorkflowRecord) × (find (at_path path) (
                  update_where
                    (λ (w : WorkflowRecord). w.id == id)
                    (λ (w : WorkflowRecord). record w { ref_count = n })
                    rows)
                ≡ some r)
              × (r.id ≡ id)
              × (r.ref_count ≡ n))
        → (r : WorkflowRecord) × (find (at_path path) (
              (if b then record x { ref_count = n } else x)
              ∷ update_where
                  (λ (w : WorkflowRecord). w.id == id)
                  (λ (w : WorkflowRecord). record w { ref_count = n })
                  rows)
            ≡ some r)
          × (r.id ≡ id)
          × (r.ref_count ≡ n)
    by_tests true true p q f ih =
        (record x { ref_count = n }, rw p refl, (==_iff x.id id).0 q, refl)
    by_tests true false p q f ih =
        absurd
          (false_true (sym q ∙ (==_iff x.id id).1 (ap (λ (w : WorkflowRecord). w.id) (same f) ∙ k)))
      where
        false_true : false ≡ true → ⊥
        false_true w = cc
    by_tests false true p q f ih = let (r, g, i, c) = ih f k in (r, rw p g, i, c)
    by_tests false false p q f ih = let (r, g, i, c) = ih f k in (r, rw p g, i, c)

-- The path has a row with the id, and the row has the number of references.
abbrev pub IsOfPath : Text → ℕ → ℕ → Database → Type 0
IsOfPath path id n db =
    (row : WorkflowRecord) × (get_workflow path db ≡ some row) × (row.id ≡ id) × (row.ref_count ≡ n)

abbrev start : ℕ → Indexed
start id = record { id = id; resolved_count = 0; unresolved_count = 0 }

module _ (to_lowercase : Text → Text) (map : Lookup) (refs : List ModelRef)
    (before : Database) where
  -- What is to hold of the counts and the tables.
  abbrev pub IsIndexed : Indexed → Database → Type 0
  IsIndexed c db =
      (c.resolved_count + c.unresolved_count ≡ length refs)
      × (count_where (of_workflow c.id) db.workflow_refs ≡ length refs)
      × ((g : ℕ)
          → g ≢ c.id
          → count_where (of_workflow g) db.workflow_refs
            ≡ count_where (of_workflow g) before.workflow_refs)
      × ((h : Blake3Hash)
          → any (λ r. resolves_to h (found to_lowercase map r)) refs ≡ true
          → 1 ≤ count_where (to_model h) db.workflow_refs)
      × (any (λ r. not (is_legal r)) refs ≡ false)

  -- The rows that stay, and those that come.
  Inserts-IsIndexed :
      (id : ℕ) (cleared after : Database) (c : Indexed)
      → cleared.workflow_refs ≡ delete_where (of_workflow id) before.workflow_refs
      → Inserts to_lowercase map refs (start id) cleared c after
      → IsIndexed c after
  Inserts-IsIndexed id cleared after c e (x, y, z) = (
    omega (
      arith,
      tally_sum to_lowercase map refs (start id),
      ap (λ (r : Indexed). r.resolved_count) x,
      ap (λ (r : Indexed). r.unresolved_count) x,
    ),
    ap (λ i. count_where (of_workflow i) after.workflow_refs) same_id
        ∙ omega (
          arith,
          split_count (of_workflow id),
          count_where-delete_where_self (of_workflow id) before.workflow_refs,
          count_rows to_lowercase map id cleared.workflow_ref_seq refs,
        ),
    λ g n. omega (
      arith,
      split_count (of_workflow g),
      count_where-delete_where (of_workflow g) (of_workflow id) before.workflow_refs
          (λ a k. ground (arith, n, same_id, k, ==_iff a.workflow_id id, ==_iff a.workflow_id g)),
      count_others to_lowercase map g id cleared.workflow_ref_seq refs (λ k. n (k ∙ sym same_id)),
    ),
    λ h k. omega (
      arith,
      split_count (to_model h),
      count_resolved to_lowercase map h id cleared.workflow_ref_seq refs k,
    ),
    z,
  )
    where
      same_id : c.id ≡ id
      same_id = ap (λ (r : Indexed). r.id) x ∙ tally-id to_lowercase map refs (start id)

      split_count :
          (p : WorkflowRef → Bool)
          → count_where p after.workflow_refs
            ≡ count_where p (delete_where (of_workflow id) before.workflow_refs)
              + count_where p (rows_of to_lowercase map id cleared.workflow_ref_seq refs)
      split_count p =
          ap (count_where p)
            (y ∙ ap (λ xs. xs ++ rows_of to_lowercase map id cleared.workflow_ref_seq refs) e)
          ∙ count_where-append p (delete_where (of_workflow id) before.workflow_refs)
              (rows_of to_lowercase map id cleared.workflow_ref_seq refs)

-- What holds of the references in one order holds in the other.
partitioned :
    (to_lowercase : Text → Text) (map : Lookup) (xs : List ModelRef) (before after : Database)
    (c : Indexed)
    → IsIndexed to_lowercase map
        (select (λ (r : ModelRef). r.is_known) xs ++ select (λ (r : ModelRef). not r.is_known) xs)
        before
        c
        after
    → IsIndexed to_lowercase map xs before c after
partitioned to_lowercase map xs before after c (s, n, o, m, z) = (
  s ∙ length-partition known xs,
  n ∙ length-partition known xs,
  o,
  λ h e. m h (any-partition known _ xs ∙ e),
  sym (any-partition known _ xs) ∙ z,
)
  where
    known : ModelRef → Bool
    known r = r.is_known

module _ (to_lowercase : Text → Text) (from_str : Text → Option Value) (blake3 : Text → Blake3Hash)
    (path : FilePath) (map : Lookup) where
  parse_workflow-Ends :
      (content : Text) (json : Value) (w : World)
      → lookup path w.fs ≡ some (file content)
      → from_str content ≡ some json
      → Ends
          (λ wf v. (wf ≡ parsed to_lowercase path json) × (v.db ≡ w.db))
          (λ _. Unit)
          (parse_workflow to_lowercase from_str path w)
  unfolding parse_workflow
  parse_workflow-Ends content json w there reads =
      Ends-bind _ _ w
        (Ends-and {P = λ fs db. (lookup path fs ≡ some (file content)) × (db ≡ w.db)} _ w
          (read_to_string-Ends path w) (read-Keeps path) (there, refl))
        (λ t v (e, (h, d)).
          Ends-bind {Good = λ j u. (j ≡ json) × (u.db ≡ w.db)} {Bad = λ _. Unit {0}} _ _ v
            (rw (ap from_str (same_file t (sym e ∙ h)) ∙ reads) (Ends-pure json v (refl, d)))
            (λ j u (f, g). Ends-pure _ u (ap (parsed to_lowercase path) f, g)) (λ u x. x))
        (λ v _. tt)
    where
      content_of : Option Node → Text
      content_of (some (file t)) = t
      content_of (some dir) = []
      content_of none = []

      same_file : (t : Text) → some (file t) ≡ some (file content) → t ≡ content
      same_file t e = ap content_of e

  -- What holds of the rows of the returned id, and, if that id is the one of the path, of its row.
  pub index_workflow-Ends :
      (content : Text) (json : Value) (w : World)
      → lookup path w.fs ≡ some (file content)
      → from_str content ≡ some json
      → Ends
          (λ c v.
            IsIndexed to_lowercase map (extract_model_refs to_lowercase json) w.db c v.db
            × (IsCurrent (path_text path) w.db
                → IsOfPath
                    (path_text path)
                    c.id
                    (length (extract_model_refs to_lowercase json))
                    v.db))
          (λ _. Unit)
          (index_workflow to_lowercase from_str blake3 path map w)
  unfolding index_workflow parsed clear_workflow_refs update_workflow_ref_count get_workflow
  index_workflow-Ends content json w there reads =
      Ends-bind _ _ w (parse_workflow-Ends content json w there reads)
        (λ wf v (e, d).
          Keeps-then {P = λ _ db. db ≡ w.db} _ _ v (Keeps-try _ (hash_file-Keeps blake3 path)) d
            (λ fh v2 d2.
              Keeps-then {P = λ _ db. db ≡ w.db} _ _ v2 Keeps-now d2
                (λ at v3 d3.
                  Ends-bind _ _ v3 (attempt-Ends _ v3)
                    (λ id v4 up.
                      Ends-bind _ _ v4 (execute-Ends (clear_workflow_refs id) v4)
                        (λ _ v5 (cl, _).
                          Ends-bind _ _ v5
                            (insert_refs-Ends to_lowercase map (wf.refs ++ wf.unresolved) (start id)
                              v5)
                            (λ c v6 ins.
                              Ends-bind _ _ v6 (execute-Ends (update_workflow_ref_count id) v6)
                                (λ _ v7 (upd, _).
                                  Ends-pure c v7
                                    (finish wf fh at id v3 v4 v5 v6 v7 c e d3 up cl ins upd))
                                (λ _ _. tt))
                            (λ _ _. tt))
                        (λ _ _. tt))
                    (λ _ _. tt))
                (λ _ _. tt))
            (λ _ _. tt))
        (λ _ _. tt)
    where
      refs_of : ParsedWorkflow → List ModelRef
      refs_of wf = wf.refs ++ wf.unresolved

      finish :
          (wf : ParsedWorkflow) (fh : Result Blake3Hash) (at id : ℕ) (v3 v4 v5 v6 v7 : World)
          (c : Indexed)
          → wf ≡ parsed to_lowercase path json
          → v3.db ≡ w.db
          → with_id (upsert_workflow at (path_text path) (hash_text fh) wf.title v3.db)
            ≡ outcome id v4.db
          → v5.db ≡ clear_workflow_refs id v4.db
          → Inserts to_lowercase map (refs_of wf) (start id) v5.db c v6.db
            × (v6.db.workflows ≡ v5.db.workflows)
          → v7.db ≡ update_workflow_ref_count id v6.db
          → IsIndexed to_lowercase map (extract_model_refs to_lowercase json) w.db c v7.db
            × (IsCurrent (path_text path) w.db
                → IsOfPath
                    (path_text path)
                    c.id
                    (length (extract_model_refs to_lowercase json))
                    v7.db)
      finish wf fh at id v3 v4 v5 v6 v7 c e d up cl ((x, y, z), k) upd = (indexed, of_path)
        where
          indexed : IsIndexed to_lowercase map (extract_model_refs to_lowercase json) w.db c v7.db
          indexed =
              partitioned to_lowercase map (extract_model_refs to_lowercase json) w.db v7.db c (
                subst (λ k. IsIndexed to_lowercase map (refs_of k) w.db c v7.db) e
                  (Inserts-IsIndexed to_lowercase map (refs_of wf) w.db id v5.db v7.db c
                    (ap (λ (db : Database). db.workflow_refs) cl
                      ∙ ap (delete_where (of_workflow id)) (
                          upserted at id (path_text path) (hash_text fh) wf.title v3.db v4.db up
                          ∙ ap (λ (db : Database). db.workflow_refs) d))
                    (x, ap (λ (db : Database). db.workflow_refs) upd ∙ y, z)))

          same_id : c.id ≡ id
          same_id = ap (λ (r : Indexed). r.id) x ∙ tally-id to_lowercase map (refs_of wf) (start id)

          of_path :
              IsCurrent (path_text path) w.db
              → IsOfPath (path_text path) c.id (length (extract_model_refs to_lowercase json)) v7.db
          of_path current =
              let (row, there, named) =
                put_HasRow at id (path_text path) (hash_text fh) wf.title v3.db v4.db up
                  (subst (IsCurrent (path_text path)) (sym d) current) in
              let (r, g, i, n) =
                counted (path_text path) id (count_where (of_workflow id) v6.db.workflow_refs)
                  v6.db.workflows row
                  (ap (find (at_path (path_text path)))
                      (k ∙ ap (λ (db : Database). db.workflows) cl)
                    ∙ there)
                  named in
              (
                r,
                ap (get_workflow (path_text path)) upd ∙ g,
                i ∙ sym same_id,
                n
                    ∙ ap (count_where (of_workflow id))
                        (sym (ap (λ (db : Database). db.workflow_refs) upd))
                    ∙ ap (λ j. count_where (of_workflow j) v7.db.workflow_refs) (sym same_id)
                    ∙ indexed.1,
              )

  -- `index_workflow` of a file whose JSON can be read, whatever calls fail, where the connection
  -- inserted no row with a larger id than the one that the file's workflow has, if it has one: if it
  -- returns, the path has a row with the returned id and the number of references, there is one row
  -- for each reference under that id and the other ids keep theirs, each hash that a reference is
  -- resolved to is referred to, and the schema takes the type of every reference.
  pub index_workflow-IsIndexed :
      (content : Text) (json : Value) (w : World)
      → lookup path w.fs ≡ some (file content)
      → from_str content ≡ some json
      → IsCurrent (path_text path) w.db
      → Ends
          (λ c v.
            IsOfPath (path_text path) c.id (length (extract_model_refs to_lowercase json)) v.db
            × IsIndexed to_lowercase map (extract_model_refs to_lowercase json) w.db c v.db)
          (λ _. Unit)
          (index_workflow to_lowercase from_str blake3 path map w)
  index_workflow-IsIndexed content json w there reads current =
      Ends-mono (index_workflow-Ends content json w there reads) (λ c v (h, k). (k current, h))
        (λ v x. x)
