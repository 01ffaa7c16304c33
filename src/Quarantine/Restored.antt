-- ===== src/Quarantine/Restored.antt =====
-- What `restore` (crates/modeld-core/src/quarantine.rs) leaves of a file, whatever calls fail.
use model_id.Base.{
  ◌≡◌, ◌≢◌, refl, ap, sym, ◌∙◌, Bool, true, false, not, Option, none, some, arith, list_eq, nat_eq,
  if◌then◌else◌,
}
use model_id.Base.Text.{Text}
use model_id.Base.Dict.{lookup, erase, lookup-erase}
use model_id.Base.Results.{Result, ok, err, occupied, no_metadata}
use model_id.Db.{Database}
use model_id.Sys.{FilePath, Fs, Node, file, World, pure, throw, gets, try, ◌>>=◌, ◌>>◌}
use model_id.Sys.Files.{parent, exists, is_some, remove_file, read_to_string}
use model_id.Sys.Keeps.{
  Keeps, Holds, Keeps-and, Keeps-pure, Keeps-gets, create_dir_all-Holds, read_to_string-Holds,
}
use model_id.Sys.Results.{
  Ends, Ends-pure, Ends-throw, Ends-bind, Ends-and, Keeps-then, gets-Ends, Ends-try, Tried,
  remove_file-Ends, read_to_string-Ends,
}
use model_id.Quarantine.{
  QuarantineMeta, QuarantineManager, Serde, move_file, restore, meta_path_for, make_parent, parsed,
}
use model_id.Quarantine.Moves.{move_file-Ends}
use model_id.Quarantine.Safe.{or_throw-Ends}

make_parent-Holds :
    (q : FilePath) (t : Text) (p : Option FilePath) → Keeps (Holds q t) (make_parent p)
make_parent-Holds q t none = Keeps-pure tt
make_parent-Holds q t (some p) = create_dir_all-Holds q t p

module _ (json : Serde) (q : QuarantineManager) (path : FilePath) (t text : Text)
    (m : QuarantineMeta) where
  -- The file and its metadata are both there.
  abbrev pub Both : Fs → Database → Type 0
  Both fs db =
      (lookup path fs ≡ some (file t)) × (lookup (meta_path_for json q path) fs ≡ some (file text))

  -- What `restore` promises.
  abbrev pub Back : FilePath → World → Type 0
  Back p v =
      (p ≡ m.original_path)
      × (lookup m.original_path v.fs ≡ some (file t))
      × (lookup path v.fs ≡ none)

  module _ (fresh : meta_path_for json q path ≢ path) (parses : json.from_str text ≡ some m) where
    move-Back :
        (w : World)
        → lookup m.original_path w.fs ≡ none
        → Both w.fs w.db
        → Ends Back
            (λ v. Holds path t v.fs v.db)
            ((do
              move_file path m.original_path
              try (remove_file (meta_path_for json q path))
              pure m.original_path)
              w)
    move-Back w free (h, k) =
        Ends-bind (move_file path m.original_path) _ w
          (move_file-Ends path m.original_path t
            (λ e. none_some (sym free ∙ ap (λ p. lookup p w.fs) (sym e) ∙ h)) w h)
          (λ a v (there, gone).
            Ends-bind (try (remove_file mp)) _ v
              (Ends-try {Bad' = λ u. Holds path t u.fs u.db} (remove_file mp) v
                (remove_file-Ends mp v))
              (λ r u g.
                Ends-pure _ u (refl, (finish r u v there gone g).0, (finish r u v there gone g).1))
              (λ u g. g))
          (λ v g. g)
      where
        mp : FilePath
        mp = meta_path_for json q path

        none_some : {a : Node} → none ≢ some a
        none_some e = cc

        other : mp ≢ m.original_path
        other e = none_some (sym free ∙ ap (λ p. lookup p w.fs) (sym e) ∙ k)

        finish :
            (r : Result (Unit {0})) (u v : World)
            → lookup m.original_path v.fs ≡ some (file t)
            → lookup path v.fs ≡ none
            → Tried (λ _ x. x.fs ≡ erase mp v.fs) (λ x. x.fs ≡ v.fs) r u
            → (lookup m.original_path u.fs ≡ some (file t)) × (lookup path u.fs ≡ none)
        finish (ok a) u v there gone e =
            ground
              (arith, e, lookup-erase m.original_path mp v.fs, lookup-erase path mp v.fs, other)
        finish (err x) u v there gone e = (ap (lookup _) e ∙ there, ap (lookup _) e ∙ gone)

    -- The part of `restore` behind the test for the metadata.
    read-Back :
        (w : World)
        → Both w.fs w.db
        → Ends Back
            (λ v. Holds path t v.fs v.db)
            ((do
              s ← read_to_string (meta_path_for json q path)
              meta ← parsed json s
              make_parent (parent meta.original_path)
              taken ← gets (exists meta.original_path)
              if taken then throw occupied else do
                move_file path meta.original_path
                try (remove_file (meta_path_for json q path))
                pure meta.original_path)
              w)
    read-Back w b =
        Ends-bind (read_to_string mp) _ w
          (Ends-and (read_to_string mp) w (read_to_string-Ends mp w)
            (Keeps-and (read_to_string-Holds path t mp) (read_to_string-Holds mp text mp)) b)
          (λ s v (is_read, b1).
            Ends-bind (parsed json s) _ v (or_throw-Ends _ _ v)
              (λ meta u (found, same). rw (same_meta s meta v is_read b1.1 found) (
                Keeps-then (make_parent (parent m.original_path)) _ u
                  (Keeps-and (make_parent-Holds path t _) (make_parent-Holds mp text _))
                  (rw same b1)
                  (λ a x b2.
                    Ends-bind (gets (exists m.original_path)) _ x
                      (gets-Ends {Bad = λ y. Holds path t y.fs y.db} _ x)
                      (λ taken y (is_taken, sm). by_taken taken y is_taken (rw sm b2)) (λ y g. g))
                  (λ x g. g.0)))
              (λ u e. rw e b1.0))
          (λ v g. g.1.0)
      where
        mp : FilePath
        mp = meta_path_for json q path

        same_meta :
            (s : Text) (meta : QuarantineMeta) (v : World)
            → lookup mp v.fs ≡ some (file s)
            → lookup mp v.fs ≡ some (file text)
            → json.from_str s ≡ some meta
            → meta ≡ m
        same_meta s meta v a b c = cc

        by_taken :
            (taken : Bool) (y : World)
            → taken ≡ exists m.original_path y
            → Both y.fs y.db
            → Ends Back
                (λ v. Holds path t v.fs v.db)
                ((if taken then throw occupied else do
                  move_file path m.original_path
                  try (remove_file mp)
                  pure m.original_path)
                  y)
        by_taken true y e b = Ends-throw _ y b.0
        by_taken false y e b = move-Back y (free _ e) b
          where
            free : (n : Option Node) → false ≡ is_some n → n ≡ none
            free none e = refl
            free (some n) e = cc

    -- `restore` of a file whose metadata stands in another file of the quarantine and names the
    -- original path, whatever calls fail:
    -- if it returns, it returns that path, where the content now stands, and the file is gone from
    -- the quarantine; if it fails (an occupied original path included), the content is still in
    -- the quarantine.
    pub restore_moves :
        (w : World)
        → lookup path w.fs ≡ some (file t)
        → lookup (meta_path_for json q path) w.fs ≡ some (file text)
        → Ends Back (λ v. Holds path t v.fs v.db) (restore json q path w)
    unfolding restore
    restore_moves w h k =
        Keeps-then (gets (exists (meta_path_for json q path))) _ w
          (Keeps-and (Keeps-gets _) (Keeps-gets _)) (h, k) by_found (λ v g. g.0)
      where
        by_found :
            (found : Bool) (v : World)
            → Both v.fs v.db
            → Ends Back
                (λ v. Holds path t v.fs v.db)
                ((if not found then throw no_metadata else do
                  s ← read_to_string (meta_path_for json q path)
                  meta ← parsed json s
                  make_parent (parent meta.original_path)
                  taken ← gets (exists meta.original_path)
                  if taken then throw occupied else do
                    move_file path meta.original_path
                    try (remove_file (meta_path_for json q path))
                    pure meta.original_path)
                  v)
        by_found true v b = read-Back v b
        by_found false v b = Ends-throw _ v b.0
