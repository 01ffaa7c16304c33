-- ===== src/Db/Upsert.antt =====
-- What `upsert_workflow` and `insert_or_update_model` of db.rs leave in the tables, and which id they return.
use model_id.Base.{
  ℕ, ◌+◌, ◌≤◌, ◌≡◌, ◌≢◌, ◌↔◌, refl, ap, ◌∙◌, Bool, true, false, Option, none, some, List, [], ◌∷◌,
  ◌++◌, arith, any, find, max, if◌then◌else◌, list_eq, nat_eq, ==_iff, ==_refl,
}
use model_id.Base.Text.{Text}
use model_id.Hash.{Blake3Hash}
use model_id.Db.{Database, Model, WorkflowRecord}
use model_id.Db.Models.{
  ◌=h◌, has_model, coalesce, new_model, seen_again, insert_or_update_model, get_model,
}
use model_id.Db.Table.{update_where, find-append_fresh}
use model_id.Db.Workflows.{at_path, parsed_again, put_workflow, get_workflow, upsert_workflow}

find-any {ℓ} :
    {A : Type ℓ} (p : A → Bool) (xs : List A) (a : A) → find p xs ≡ some a → any p xs ≡ true
find-any p [] a e = cc
find-any p (x ∷ xs) a e = ground (arith, find-any p xs a)

find-none {ℓ} : {A : Type ℓ} (p : A → Bool) (xs : List A) → find p xs ≡ none → any p xs ≡ false
find-none p [] e = refl
find-none p (x ∷ xs) e = ground (arith, find-none p xs)

-- After an UPDATE of the rows that `p` finds, `p` finds the updated row.
pub find-update_where {ℓ} :
    {A : Type ℓ} (p : A → Bool) (f : A → A) (xs : List A) (a : A)
    → ((x : A) → p (f x) ≡ p x)
    → find p xs ≡ some a
    → find p (update_where p f xs) ≡ some (f a)
unfolding update_where
find-update_where p f [] a h e = cc
find-update_where p f (x ∷ xs) a h e = ground (arith, h x, find-update_where p f xs a h)

-- The connection inserted no row with a larger id than the one that the path's row has, if it has one.
abbrev pub IsCurrent : Text → Database → Type 0
IsCurrent path db =
    (old : WorkflowRecord) → get_workflow path db ≡ some old → db.last_insert_rowid ≤ old.id

-- The path has a row with the id.
abbrev pub HasRow : Text → ℕ → Database → Type 0
HasRow path id db = (row : WorkflowRecord) × (get_workflow path db ≡ some row) × (row.id ≡ id)

pub upsert_workflow-HasRow :
    (now : ℕ) (path : Text) (file_hash title : Option Text) (db : Database)
    → IsCurrent path db
    → HasRow path
        (upsert_workflow now path file_hash title db).0
        (upsert_workflow now path file_hash title db).1
unfolding upsert_workflow get_workflow put_workflow
upsert_workflow-HasRow now path file_hash title db current =
    by_row (find (at_path path) db.workflows) refl
  where
    named :
        (last : ℕ) (row : WorkflowRecord) (o : Option WorkflowRecord)
        → o ≡ some row
        → last ≤ row.id
        → row.id ≡ max last (elim o [ none ↦ 0 | some w ↦ w.id ])
    named last row o e h = rw e (omega (arith, h))

    new : WorkflowRecord
    new = record {
      id = db.workflow_seq + 1;
      path = path;
      file_hash = file_hash;
      title = title;
      parsed_at = now;
      last_seen_at = now;
      ref_count = 0;
    }

    updated :
        (old : WorkflowRecord)
        → find (at_path path) db.workflows ≡ some old
        → find
            (at_path path)
            (update_where (at_path path) (parsed_again now file_hash title) db.workflows)
          ≡ some (parsed_again now file_hash title old)
    updated old e =
        find-update_where (at_path path) (parsed_again now file_hash title) db.workflows old
          (λ x. refl) e

    added :
        find (at_path path) db.workflows ≡ none
        → find (at_path path) (db.workflows ++ new ∷ []) ≡ some new
    added e =
        find-append_fresh (at_path path) db.workflows new (find-none (at_path path) db.workflows e)
          (==_refl path)

    by_row :
        (o : Option WorkflowRecord)
        → find (at_path path) db.workflows ≡ o
        → HasRow path
            (upsert_workflow now path file_hash title db).0
            (upsert_workflow now path file_hash title db).1
    by_row (some old) e = rw (find-any (at_path path) db.workflows old e) (
      parsed_again now file_hash title old,
      updated old e,
      named db.last_insert_rowid (parsed_again now file_hash title old) _ (updated old e)
          (current old e),
    )
    by_row none e =
        rw (find-none (at_path path) db.workflows e)
          (new, added e, named (db.workflow_seq + 1) new _ (added e) (omega arith))

-- `upsert_workflow` of a path that has a row returns the id of that row exactly if the connection's
-- last inserted row id is at most that id.
pub upsert_workflow-id :
    (now : ℕ) (path : Text) (file_hash title : Option Text) (db : Database) (w : WorkflowRecord)
    → get_workflow path db ≡ some w
    → (upsert_workflow now path file_hash title db).0 ≡ w.id ↔ db.last_insert_rowid ≤ w.id
unfolding upsert_workflow get_workflow put_workflow
upsert_workflow-id now path file_hash title db w h = rw is_put (
    by_row _ (
      find-update_where (at_path path) (parsed_again now file_hash title) db.workflows w (λ x. refl)
        h))
  where
    is_put : put_workflow now path file_hash title db ≡ record db {
      workflows = update_where (at_path path) (parsed_again now file_hash title) db.workflows;
      workflow_seq = db.workflow_seq + 1;
    }
    is_put = rw (find-any (at_path path) db.workflows w h) refl

    by_row :
        (o : Option WorkflowRecord)
        → o ≡ some (parsed_again now file_hash title w)
        → max db.last_insert_rowid (elim o [ none ↦ 0 | some w' ↦ w'.id ]) ≡ w.id
          ↔ db.last_insert_rowid ≤ w.id
    by_row none e = cc
    by_row (some w') e = by_id (ap id_of e)
      where
        id_of : Option WorkflowRecord → ℕ
        id_of none = 0
        id_of (some v) = v.id

        by_id : {l i j : ℕ} → i ≡ j → max l i ≡ j ↔ l ≤ j
        by_id e = (omega arith, omega arith)

find-append_one {ℓ} :
    {A : Type ℓ} (p : A → Bool) (xs : List A) (a : A)
    → find p (xs ++ a ∷ [])
      ≡ elim (find p xs) [ none ↦ (if p a then some a else none) | some x ↦ some x ]
find-append_one p [] a = refl
find-append_one p (x ∷ xs) a = ground (arith, find-append_one p xs a)

find-update_other {ℓ} :
    {A : Type ℓ} (p q : A → Bool) (f : A → A) (xs : List A)
    → ((x : A) → q (f x) ≡ q x)
    → ((x : A) → p x ≡ true → q x ≡ false)
    → find q (update_where p f xs) ≡ find q xs
unfolding update_where
find-update_other p q f [] h k = refl
find-update_other p q f (x ∷ xs) h k = ground (arith, h x, k x, find-update_other p q f xs h k)

-- After `insert_or_update_model` the model is found, with the size and the time of this call, with
-- its pin as it was (none on a new row) and with the old format where none is given; and each other
-- hash finds what it found before.
pub insert_or_update_model-get_model :
    (now : ℕ) (hash : Blake3Hash) (size_bytes : ℕ) (format arch category base_model : Option Text)
    (db : Database)
    → ((m : Model) × (get_model hash
            (insert_or_update_model now hash size_bytes format arch category base_model db).1
          ≡ some m)
        × (m.size_bytes ≡ size_bytes)
        × (m.last_seen ≡ now)
        × (m.pinned ≡ elim (get_model hash db) [ none ↦ false | some old ↦ old.pinned ])
        × (m.format
            ≡ coalesce format (elim (get_model hash db) [ none ↦ none | some old ↦ old.format ])))
      × ((g : Blake3Hash)
          → g.hex ≢ hash.hex
          → get_model g
              (insert_or_update_model now hash size_bytes format arch category base_model db).1
            ≡ get_model g db)
unfolding insert_or_update_model get_model
insert_or_update_model-get_model now hash size_bytes format arch category base_model db =
    (found (find is_it db.models) refl, others)
  where
    is_it : Model → Bool
    is_it m = m.blake3_hash =h hash

    new : Model
    new = new_model (db.model_seq + 1) now hash size_bytes format arch category base_model

    again : Model → Model
    again = seen_again now size_bytes format arch category base_model

    pair_if : Bool → ℕ × Database
    pair_if b =
        if b
        then (
          db.last_insert_rowid,
          record db { models = update_where is_it again db.models; model_seq = db.model_seq + 1 },
        )
        else (
          db.model_seq + 1,
          record db {
            models = db.models ++ new ∷ [];
            model_seq = db.model_seq + 1;
            last_insert_rowid = db.model_seq + 1;
          },
        )

    after_if : Bool → Database
    after_if b = (pair_if b).1

    after : Database
    after = after_if (has_model hash db.models)

    coalesce-none : (o : Option Text) → o ≡ coalesce o none
    coalesce-none none = refl
    coalesce-none (some t) = refl

    inserted : find is_it db.models ≡ none → get_model hash after ≡ some new
    inserted e =
        ap (λ b. get_model hash (after_if b)) (find-none is_it db.models e)
        ∙ find-append_one is_it db.models new
        ∙ rw e (rw (==_refl hash.hex) refl)

    updated :
        (old : Model) → find is_it db.models ≡ some old → get_model hash after ≡ some (again old)
    updated old e =
        ap (λ b. get_model hash (after_if b)) (find-any is_it db.models old e)
        ∙ find-update_where is_it again db.models old (λ x. refl) e

    found :
        (o : Option Model)
        → find is_it db.models ≡ o
        → (m : Model) × (get_model hash after ≡ some m)
          × (m.size_bytes ≡ size_bytes)
          × (m.last_seen ≡ now)
          × (m.pinned ≡ elim (find is_it db.models) [ none ↦ false | some old ↦ old.pinned ])
          × (m.format
              ≡ coalesce format
                  (elim (find is_it db.models) [ none ↦ none | some old ↦ old.format ]))
    found none e = (new, inserted e, refl, refl, rw e refl, rw e (coalesce-none format))
    found (some old) e = (again old, updated old e, refl, refl, rw e refl, rw e refl)

    others : (g : Blake3Hash) → g.hex ≢ hash.hex → get_model g after ≡ get_model g db
    others g n = by_any (has_model hash db.models)
      where
        is_other : Model → Bool
        is_other m = m.blake3_hash =h g

        apart : (m : Model) → is_it m ≡ true → is_other m ≡ false
        apart m e =
            ground (arith, ==_iff m.blake3_hash.hex hash.hex, ==_iff m.blake3_hash.hex g.hex)

        kept :
            (b : Bool) (o : Option Model)
            → b ≡ false
            → elim o [ none ↦ (if b then some new else none) | some x ↦ some x ] ≡ o
        kept b none e = rw e refl
        kept b (some m) e = refl

        by_any : (b : Bool) → get_model g (after_if b) ≡ get_model g db
        by_any true = find-update_other is_it is_other again db.models (λ x. refl) apart
        by_any false =
            find-append_one is_other db.models new
            ∙ kept (is_other new) (find is_other db.models) (apart new (==_refl hash.hex))
