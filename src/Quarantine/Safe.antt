-- ===== src/Quarantine/Safe.antt =====
-- What `quarantine` and `restore` (crates/modeld-core/src/quarantine.rs) leave of a file, whatever
-- calls fail.
use model_id.Base.{
  ◌≡◌, ◌≢◌, refl, ap, sym, ◌∙◌, Option, none, some, List, arith, list_eq, nat_eq, length,
  length-append,
}
use model_id.Base.Text.{Text, codes}
use model_id.Base.Dict.{lookup}
use model_id.Base.Results.{Error}
use model_id.Sys.{FilePath, file, World, pure, now, ◌>>◌}
use model_id.Sys.Files.{file_name-join, join, write, metadata_len, file_name}
use model_id.Sys.Keeps.{Keeps-now, create_dir_all-Holds, metadata_len-Holds, write-Holds}
use model_id.Sys.Results.{Ends, Ends-pure, Ends-throw, Ends-bind, Ends-and, Keeps-then, write-Ends}
use model_id.Quarantine.{
  QuarantineMeta, QuarantineManager, Serde, RoundTrips, move_file, init, quarantine, meta_path_for,
  meta_name, file_name_for, or_throw,
}
use model_id.Quarantine.Moves.{move_file-Ends, move_file-Holds}

pub or_throw-Ends :
    {A : Type 0} (e : Error) (o : Option A) (w : World)
    → Ends (λ a v. (o ≡ some a) × (v ≡ w)) (λ v. v ≡ w) (or_throw e o w)
or_throw-Ends e none w = Ends-throw e w refl
or_throw-Ends e (some a) w = Ends-pure a w (refl, refl)

pub meta_name-fresh : (p : FilePath) (name : Text) → join p (meta_name name) ≢ join p name
meta_name-fresh p name e = omega (
  arith,
  length-append name (codes ".meta"),
  ap length (sym (file_name-join p (meta_name name)) ∙ ap file_name e ∙ file_name-join p name),
)

-- The metadata that stands beside `path` says that it came from `original`.
abbrev pub CameFrom : Serde → QuarantineManager → FilePath → FilePath → World → Type 0
CameFrom json q original path w =
    (text : Text) × (m : QuarantineMeta) × (lookup (meta_path_for json q path) w.fs
      ≡ some (file text))
    × (json.from_str text ≡ some m)
    × (m.original_path ≡ original)

-- `path` is not one of the files of the quarantine directory.
abbrev pub Outside : QuarantineManager → FilePath → Type 0
Outside q path = (name : Text) → join q.quarantine_dir name ≢ path

module _ (json : Serde) (q : QuarantineManager) (faithful : RoundTrips json) where
  module _ (file_path : FilePath) (t : Text) (outside : Outside q file_path) where
    -- The steps of `quarantine` from the write of the metadata on.
    put_away :
        (name text : Text) (m : QuarantineMeta)
        → json.from_str text ≡ some m
        → m.original_path ≡ file_path
        → (w : World) → lookup file_path w.fs ≡ some (file t)
        → Ends
            (λ p v.
              (lookup p v.fs ≡ some (file t))
              × (lookup file_path v.fs ≡ none)
              × CameFrom json q file_path p v)
            (λ v. lookup file_path v.fs ≡ some (file t))
            ((do
              write (join q.quarantine_dir (meta_name name)) text
              move_file file_path (join q.quarantine_dir name)
              pure (join q.quarantine_dir name))
              w)
    put_away name text m parses from w h =
        Ends-bind (write meta_path text) _ w
          (Ends-and (write meta_path text) w (write-Ends meta_path text w)
            (write-Holds file_path t meta_path text (outside (meta_name name))) h)
          (λ a v (written, g).
            Ends-bind (move_file file_path to) _ v
              (Ends-and (move_file file_path to) v (move_file-Ends file_path to t apart v g)
                (move_file-Holds meta_path text file_path to (λ e. outside (meta_name name) (sym e))
                  (λ e. meta_name-fresh _ name (sym e)))
                written)
              (λ b u ((there, gone), meta). Ends-pure to u (
                there,
                gone,
                (text, m, rw (file_name-join q.quarantine_dir name) meta, parses, from),
              ))
              (λ u g. g.0))
          (λ v g. g.1)
      where
        to : FilePath
        to = join q.quarantine_dir name

        meta_path : FilePath
        meta_path = join q.quarantine_dir (meta_name name)

        apart : file_path ≢ to
        apart e = outside name (sym e)

    -- `quarantine` of a file outside the quarantine directory, whose path is UTF-8, so that
    -- `to_string_lossy` leaves it as it is, whatever calls fail: if it returns
    -- a path, the content stands there, with metadata that names the original path, and is gone
    -- from the original path; if it fails, the content is still at the original path.
    pub quarantine_moves :
        json.to_string_lossy file_path ≡ file_path
        → (hash reason : Text) (references : List FilePath) (w : World)
        → lookup file_path w.fs ≡ some (file t)
        → Ends
            (λ p v.
              (lookup p v.fs ≡ some (file t))
              × (lookup file_path v.fs ≡ none)
              × CameFrom json q file_path p v)
            (λ v. lookup file_path v.fs ≡ some (file t))
            (quarantine json q file_path hash reason references w)
    unfolding quarantine init
    quarantine_moves is_text hash reason references w h =
        Keeps-then (init json q) _ w (create_dir_all-Holds file_path t q.quarantine_dir) h
          (λ a w1 h1.
            Keeps-then now _ w1 Keeps-now h1
              (λ at w2 h2.
                Keeps-then (metadata_len file_path) _ w2 (metadata_len-Holds file_path t file_path)
                  h2
                  (λ size w3 h3.
                    Ends-bind (or_throw _ _) _ w3 (or_throw-Ends _ _ w3)
                      (λ text w4 (made, same).
                        put_away (file_name_for hash at) text _ (faithful.from-to _ text made)
                          is_text w4 (rw same h3))
                      (λ v e. rw e h3))
                  (λ v g. g))
              (λ v g. g))
          (λ v g. g)
