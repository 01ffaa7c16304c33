-- ===== src/Workflow/Rows.antt =====
-- The rows that `index_workflow` (crates/modeld-core/src/workflow.rs) writes.
use mathlib.Core.List.{append_assoc}
use model_id.Base.{
  ℕ, ◌+◌, ◌≤◌, ◌≡◌, ◌≢◌, refl, sym, ap, ◌∙◌, Bool, true, false, ◌||◌, not, none, some, List, [],
  ◌∷◌, ◌++◌, arith, any, length, length-append, any-append, select, contains, if◌then◌else◌,
  list_eq, nat_eq, ◌==◌, ==_iff, ==_refl,
}
use model_id.Base.Text.{Text}
use model_id.Base.Results.{Result, ok, err, check_violation, foreign_key_violation}
use model_id.Hash.{Blake3Hash}
use model_id.Db.{Database, WorkflowRecord, WorkflowRef}
use model_id.Db.Models.{◌=h◌}
use model_id.Db.Table.{count_where}
use model_id.Db.Workflows.{ref_types, of_workflow, to_model, model_known, insert_workflow_ref}
use model_id.Sys.{World}
use model_id.Sys.Apart.{attempt-Ends}
use model_id.Sys.Results.{Ends, Ends-pure, Ends-bind, Ends-mono}
use model_id.Workflow.{ModelRef}
use model_id.Workflow.Index.{Resolved, Lookup, Indexed, count, resolve_model_ref, insert_refs}

-- The schema takes the type of the reference.
abbrev pub is_legal : ModelRef → Bool
is_legal r = contains ref_types r.ref_type

abbrev pub resolves_to : Blake3Hash → Resolved → Bool
resolves_to h found = elim found.hash [ none ↦ false | some k ↦ k =h h ]

abbrev row : ℕ → ℕ → ModelRef → Resolved → WorkflowRef
row id seq r found = record {
  id = seq + 1;
  workflow_id = id;
  model_hash = found.hash;
  ref_type = r.ref_type;
  model_name = r.model_name;
  model_path = found.model_path;
  resolved = found.resolved;
}

abbrev add_row : ℕ → ModelRef → Resolved → Database → Database
add_row id r found db = record db {
  workflow_refs = db.workflow_refs ++ row id db.workflow_ref_seq r found ∷ [];
  workflow_ref_seq = db.workflow_ref_seq + 1;
  last_insert_rowid = db.workflow_ref_seq + 1;
}

abbrev pub outcome : ℕ → Database → Result (ℕ × Database)
outcome a db = ok (a, db)

unfoldable pub second : Result (ℕ × Database) → Database → Database
second (ok (a, db)) d = db
second (err e) d = d

-- What a statement that returned has done.
inserted :
    (id a : ℕ) (r : ModelRef) (found : Resolved) (db after : Database)
    → insert_workflow_ref id found.hash r.ref_type r.model_name found.model_path found.resolved db
      ≡ outcome a after
    → (is_legal r ≡ true) × (after ≡ add_row id r found db)
unfolding insert_workflow_ref second
inserted id a r found db after e =
    by_tests (is_legal r)
      (not (any (λ (w : WorkflowRecord). w.id == id) db.workflows)
        || not (model_known found.hash db.models))
      e
  where
    by_tests :
        (legal unknown : Bool)
        → (if not legal
            then err check_violation
            else if unknown
            then err foreign_key_violation
            else outcome (db.workflow_ref_seq + 1) (add_row id r found db))
          ≡ outcome a after
        → (legal ≡ true) × (after ≡ add_row id r found db)
    by_tests false u k = cc
    by_tests true true k = cc
    by_tests true false k = (refl, sym (ap (λ x. second x db) k))

module _ (to_lowercase : Text → Text) (map : Lookup) where
  abbrev pub found : ModelRef → Resolved
  found r = resolve_model_ref to_lowercase r.model_name map

  unfoldable pub rows_of : ℕ → ℕ → List ModelRef → List WorkflowRef
  rows_of id seq [] = []
  rows_of id seq (r ∷ refs) = row id seq r (found r) ∷ rows_of id (seq + 1) refs

  unfoldable pub tally : List ModelRef → Indexed → Indexed
  tally [] c = c
  tally (r ∷ refs) c = tally refs (count (found r).resolved c)

  abbrev pub Inserts : List ModelRef → Indexed → Database → Indexed → Database → Type 0
  Inserts refs counts db c after =
      (c ≡ tally refs counts)
      × (after.workflow_refs ≡ db.workflow_refs ++ rows_of counts.id db.workflow_ref_seq refs)
      × (any (λ r. not (is_legal r)) refs ≡ false)

  count-id : (b : Bool) (c : Indexed) → (count b c).id ≡ c.id
  count-id true c = refl
  count-id false c = refl

  pub insert_refs-Ends :
      (refs : List ModelRef) (counts : Indexed) (w : World)
      → Ends
          (λ c v. Inserts refs counts w.db c v.db × (v.db.workflows ≡ w.db.workflows))
          (λ _. Unit)
          (insert_refs to_lowercase map refs counts w)
  unfolding insert_refs rows_of tally
  insert_refs-Ends [] counts w = Ends-pure counts w ((refl, nothing_new, refl), refl)
    where
      append-nil' : (xs : List WorkflowRef) → xs ≡ xs ++ []
      append-nil' [] = refl
      append-nil' (x ∷ xs) = ap (λ ys. x ∷ ys) (append-nil' xs)

      nothing_new : w.db.workflow_refs ≡ w.db.workflow_refs ++ []
      nothing_new = append-nil' w.db.workflow_refs
  insert_refs-Ends (r ∷ refs) counts w =
      Ends-bind _ _ w (attempt-Ends _ w)
        (λ a v e.
          after_one v (inserted counts.id a r (found r) w.db v.db e)
            (insert_refs-Ends refs (count (found r).resolved counts) v))
        (λ v x. x)
    where
      after_one :
          (v : World)
          → (is_legal r ≡ true) × (v.db ≡ add_row counts.id r (found r) w.db)
          → Ends
              (λ c u.
                Inserts refs (count (found r).resolved counts) v.db c u.db
                × (u.db.workflows ≡ v.db.workflows))
              (λ _. Unit {0})
              (insert_refs to_lowercase map refs (count (found r).resolved counts) v)
          → Ends
              (λ c u. Inserts (r ∷ refs) counts w.db c u.db × (u.db.workflows ≡ w.db.workflows))
              (λ _. Unit {0})
              (insert_refs to_lowercase map refs (count (found r).resolved counts) v)
      after_one v (legal, d) ih =
          Ends-mono ih
            (λ c u ((x, y, z), k). (
              (
                x,
                y
                    ∙ ap (λ i. v.db.workflow_refs ++ rows_of i v.db.workflow_ref_seq refs)
                        (count-id (found r).resolved counts)
                    ∙ ap
                        (λ (db : Database).
                          db.workflow_refs ++ rows_of counts.id db.workflow_ref_seq refs)
                        d
                    ∙ append_assoc w.db.workflow_refs
                        (row counts.id w.db.workflow_ref_seq r (found r) ∷ [])
                        (rows_of counts.id (w.db.workflow_ref_seq + 1) refs),
                rw legal z,
              ),
              k ∙ ap (λ (db : Database). db.workflows) d,
            ))
            (λ u x. x)

  -- The counts of the rows.
  pub count_rows :
      (id seq : ℕ) (refs : List ModelRef)
      → count_where (of_workflow id) (rows_of id seq refs) ≡ length refs
  unfolding count_where rows_of
  count_rows id seq [] = refl
  count_rows id seq (r ∷ refs) = ground (arith, count_rows id (seq + 1) refs, ==_refl id)

  pub count_others :
      (g id seq : ℕ) (refs : List ModelRef)
      → g ≢ id
      → count_where (of_workflow g) (rows_of id seq refs) ≡ 0
  unfolding count_where rows_of
  count_others g id seq [] n = refl
  count_others g id seq (r ∷ refs) n =
      ground (arith, count_others g id (seq + 1) refs n, ==_iff id g)

  pub count_resolved :
      (h : Blake3Hash) (id seq : ℕ) (refs : List ModelRef)
      → any (λ r. resolves_to h (found r)) refs ≡ true
      → 1 ≤ count_where (to_model h) (rows_of id seq refs)
  unfolding count_where rows_of
  count_resolved h id seq [] e = cc
  count_resolved h id seq (r ∷ refs) e =
      by_test (resolves_to h (found r)) refl (count_resolved h id (seq + 1) refs)
    where
      by_test :
          (b : Bool)
          → resolves_to h (found r) ≡ b
          → (any (λ r. resolves_to h (found r)) refs ≡ true
              → 1 ≤ count_where (to_model h) (rows_of id (seq + 1) refs))
          → 1
            ≤ (if resolves_to h (found r) then 1 else 0)
              + count_where (to_model h) (rows_of id (seq + 1) refs)
      by_test true k ih = rw k (omega arith)
      by_test false k ih = omega (arith, ih (ground (arith, e, k)))

  pub tally_sum :
      (refs : List ModelRef) (c : Indexed)
      → (tally refs c).resolved_count + (tally refs c).unresolved_count
        ≡ length refs + c.resolved_count + c.unresolved_count
  unfolding tally
  tally_sum [] c = omega arith
  tally_sum (r ∷ refs) c =
      omega (arith, tally_sum refs (count (found r).resolved c), count_sum (found r).resolved c)
    where
      count_sum :
          (b : Bool) (c : Indexed)
          → (count b c).resolved_count + (count b c).unresolved_count
            ≡ 1 + c.resolved_count + c.unresolved_count
      count_sum true c = omega arith
      count_sum false c = omega arith

  pub tally-id : (refs : List ModelRef) (c : Indexed) → (tally refs c).id ≡ c.id
  unfolding tally
  tally-id [] c = refl
  tally-id (r ∷ refs) c = tally-id refs _ ∙ count-id (found r).resolved c

module _ {A : Type 0} (p : A → Bool) where
  pub length-partition :
      (xs : List A) → length (select p xs ++ select (λ x. not (p x)) xs) ≡ length xs
  length-partition xs = length-append (select p xs) (select (λ x. not (p x)) xs) ∙ sum xs
    where
      sum : (ys : List A) → length (select p ys) + length (select (λ x. not (p x)) ys) ≡ length ys
      sum [] = refl
      sum (y ∷ ys) = ground (arith, sum ys)

  pub any-partition :
      (q : A → Bool) (xs : List A) → any q (select p xs ++ select (λ x. not (p x)) xs) ≡ any q xs
  any-partition q xs = any-append q (select p xs) (select (λ x. not (p x)) xs) ∙ both xs
    where
      both : (ys : List A) → (any q (select p ys) || any q (select (λ x. not (p x)) ys)) ≡ any q ys
      both [] = refl
      both (y ∷ ys) = ground (arith, both ys)
