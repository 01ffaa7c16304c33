-- ===== src/Unlink/Replace.antt =====
-- How `unlink_path` (crates/modeld-core/src/unlink.rs) replaces the file and the alias, whatever
-- calls fail.
use model_id.Base.{
  ℕ, ◌+◌, ◌≡◌, ◌≢◌, ◌⊎◌, inl, refl, sym, ap, subst, ◌∙◌, Bool, true, false, none, some, [], ◌∷◌,
  ◌++◌, any, if◌then◌else◌, list_eq, nat_eq, ==_refl,
}
use model_id.Base.Text.{Text}
use model_id.Base.Dict.{lookup}
use model_id.Base.Results.{Result, ok, err, Error, unique_violation, foreign_key_violation}
use model_id.Hash.{Blake3Hash}
use model_id.Db.{Database, Alias}
use model_id.Db.Enums.{original, user}
use model_id.Db.Models.{has_model}
use model_id.Db.Aliases.{at_path, get_alias_by_path, insert_alias, delete_alias}
use model_id.Db.Table.{find-append_fresh}
use model_id.Sys.{FilePath, Fs, World, file, try, now}
use model_id.Sys.Files.{copy, rename, remove_file}
use model_id.Sys.Tables.{execute, attempt}
use model_id.Sys.Apart.{execute-Keeps_files, attempt-Ends, attempt-Keeps_files, tried-Ends}
use model_id.Sys.Keeps.{
  Keeps-try, Keeps-now, Keeps-and, Holds, copy-Holds, rename-Holds, remove_file-Holds,
}
use model_id.Sys.Results.{
  Ends, Ends-pure, Ends-throw, Ends-bind, Ends-and, Keeps-then, copy-Ends, rename-Ends,
}
use model_id.Unlink.{or_cleaned, replace_file, make_original}

-- The path and the object hold the content.
abbrev pub Both : FilePath → FilePath → Text → Fs → Type 0
Both p q t fs = (lookup p fs ≡ some (file t)) × (lookup q fs ≡ some (file t))

-- The path holds its old content or that of the object, which is as it was.
abbrev pub Either : FilePath → FilePath → Text → Text → Fs → Type 0
Either path object old t fs =
    ((lookup path fs ≡ some (file old)) ⊎ (lookup path fs ≡ some (file t)))
    × (lookup object fs ≡ some (file t))

-- The path has an alias of the hash, as an independent file.
abbrev pub IsOriginal : FilePath → Blake3Hash → Database → Type 0
IsOriginal path hash db =
    (a : Alias) × (get_alias_by_path path db ≡ some a)
    × (a.model_hash ≡ hash)
    × (a.alias_type ≡ original)

insert_alias-IsOriginal :
    (at : ℕ) (hash : Blake3Hash) (path : FilePath) (db db' : Database) (id : ℕ)
    → insert_alias at hash path user original db ≡ ok (id, db')
    → IsOriginal path hash db'
unfolding insert_alias get_alias_by_path
insert_alias-IsOriginal at hash path db db' id e =
    by_test (any (at_path path) db.aliases) (has_model hash db.models) refl e
  where
    row : Alias
    row = record {
      id = db.alias_seq + 1;
      model_hash = hash;
      path = path;
      frontend = user;
      alias_type = original;
      created_at = at;
    }

    added : ℕ × Database
    added = (
      db.alias_seq + 1,
      record db {
        aliases = db.aliases ++ row ∷ [];
        alias_seq = db.alias_seq + 1;
        last_insert_rowid = db.alias_seq + 1;
      },
    )

    same : {a b : ℕ × Database} → ok a ≡ ok b → a.1 ≡ b.1
    same k = cc

    by_test :
        (b c : Bool)
        → any (at_path path) db.aliases ≡ b
        → (if b then err unique_violation else if c then ok added else err foreign_key_violation)
          ≡ ok (id, db')
        → IsOriginal path hash db'
    by_test true c k e = cc
    by_test false true k e =
        subst (IsOriginal path hash) (same e)
          (row, find-append_fresh (at_path path) db.aliases row k (==_refl path), refl, refl)
    by_test false false k e = cc

module _ (path object tmp : FilePath) (old t : Text) (apart : object ≢ path)
    (tmp_path_apart : tmp ≢ path) (object_tmp : object ≢ tmp) where
  pub replace_file-Ends :
      (w : World)
      → Holds path old w.fs w.db
      → Holds object t w.fs w.db
      → Ends
          (λ _ v. Both path object t v.fs)
          (λ v. Either path object old t v.fs)
          (replace_file object tmp path w)
  replace_file-Ends w h g =
      Ends-bind (copy object tmp) _ w
        (Ends-and (copy object tmp) w (copy-Ends object tmp t object_tmp w g)
          (copy-Holds path old object tmp tmp_path_apart) h)
        (λ _ v ((at_tmp, at_object), at_p).
          Ends-bind (try (rename tmp path)) _ v
            (tried-Ends (rename tmp path) v (
              Ends-and (rename tmp path) v (rename-Ends tmp path t tmp_path_apart v at_tmp)
                (rename-Holds object t tmp path (λ e. object_tmp (sym e)) (λ e. apart (sym e)))
                at_object))
            (λ r u (good, bad). by_result r u v at_p good bad) (λ u k. k))
        (λ v (at_object, at_p). (inl at_p, at_object))
    where
      by_result :
          (r : Result (Unit {0})) (u v : World)
          → Holds path old v.fs v.db
          → ((x : Unit {0})
              → r ≡ ok x
              → ((lookup path u.fs ≡ some (file t)) × (lookup tmp u.fs ≡ none))
                × Holds object t u.fs u.db)
          → ((e : Error) → r ≡ err e → (u.fs ≡ v.fs) × Holds object t u.fs u.db)
          → Ends {A = Unit {0}}
              (λ _ x. Both path object t x.fs)
              (λ x. Either path object old t x.fs)
              (or_cleaned tmp r u)
      by_result (ok x) u v h good bad = let ((p, _), o) = good x refl in Ends-pure tt u (p, o)
      by_result (err e) u v h good bad =
          let (same, o) = bad e refl in
          Keeps-then (try (remove_file tmp)) _ u
            (Keeps-try _ (
              Keeps-and (remove_file-Holds path old tmp tmp_path_apart)
                (remove_file-Holds object t tmp (λ k. object_tmp (sym k)))))
            (ap (lookup path) same ∙ h, o) (λ _ x (p, q). Ends-throw e x (inl p, q))
            (λ x (p, q). (inl p, q))

  pub make_original-Ends :
      (alias : Alias) (w : World)
      → Both path object t w.fs
      → Ends
          (λ _ v. Both path object t v.fs × IsOriginal path alias.model_hash v.db)
          (λ v. Both path object t v.fs)
          (make_original alias path w)
  make_original-Ends alias w h =
      Keeps-then (execute (delete_alias path)) _ w
        (execute-Keeps_files {P = Both path object t} (delete_alias path)) h
        (λ _ v g.
          Keeps-then now _ v (Keeps-now {P = λ fs _. Both path object t fs}) g
            (λ at u k.
              Ends-bind (attempt (insert_alias at alias.model_hash path user original)) _ u
                (Ends-and (attempt (insert_alias at alias.model_hash path user original)) u
                  (attempt-Ends (insert_alias at alias.model_hash path user original) u)
                  (attempt-Keeps_files {P = Both path object t}
                    (insert_alias at alias.model_hash path user original))
                  k)
                (λ id x (e, b).
                  Ends-pure tt x
                    (b, insert_alias-IsOriginal at alias.model_hash path u.db x.db id e))
                (λ x (_, b). b))
            (λ u k. k))
        (λ v g. g)
