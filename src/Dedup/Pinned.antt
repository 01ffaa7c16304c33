-- ===== src/Dedup/Pinned.antt =====
-- Which files the loop of `select_canonical` (crates/modeld-core/src/dedup.rs) finds pinned.
use model_id.Base.{
  ◌≡◌, inl, inr, refl, sym, ap, subst, ◌∙◌, Bool, true, false, Option, none, some, List, [], ◌∷◌,
  ltb, if◌then◌else◌, list_eq, nat_eq,
}
use model_id.Base.Text.{Text}
use model_id.Base.Dict.{lookup}
use model_id.Base.Results.{Result, ok, err, Error}
use model_id.Db.{Database, Model}
use model_id.Db.Models.{get_model}
use model_id.Sys.Tables.{query}
use model_id.Sys.Apart.{read-Keeps, len-Keeps, query-Keeps, tried-Ends}
use model_id.Hash.{Blake3Hash}
use model_id.Hash.Reading.{hash_file, hash_file_small, hash_file_large}
use model_id.Sys.{FilePath, Fs, file, World, pure, try, ◌>>=◌}
use model_id.Sys.Files.{read_to_string, metadata_len}
use model_id.Sys.Results.{
  Ends, Ends-pure, Ends-bind, Ends-mono, Ends-and, Keeps-then, read_to_string-Ends, query-Ends,
}
use model_id.Governance.{is_pin, is_pinned}
use model_id.Dedup.{FileInfo, or_false, pinned_if_hashed, first_pinned}
use model_id.Dedup.Select.{IsOneOf}

-- The governance pins of the database, for the file's content as the world has it.
abbrev pub IsPinned : (Text → Blake3Hash) → World → FileInfo → Type 0
IsPinned blake3 w f =
    (t : Text) × (m : Model) × (lookup f.path w.fs ≡ some (file t))
    × (get_model (blake3 t) w.db ≡ some m)
    × (m.pinned ≡ true)

-- The files and the database are those of `w`.
abbrev pub Same : World → Fs → Database → Type 0
Same w fs db = (fs ≡ w.fs) × (db ≡ w.db)

module _ (blake3 : Text → Blake3Hash) where
  content-Ends :
      (p : FilePath) (w v : World)
      → Same w v.fs v.db
      → Ends
          (λ h u.
            ((t : Text) × (lookup p w.fs ≡ some (file t)) × (h ≡ blake3 t)) × Same w u.fs u.db)
          (λ u. Same w u.fs u.db)
          ((read_to_string p >>= λ t. pure (blake3 t)) v)
  content-Ends p w v same =
      Ends-bind (read_to_string p) _ v
        (Ends-and (read_to_string p) v (read_to_string-Ends p v) (read-Keeps {P = Same w} p) same)
        (λ t u (at, s). Ends-pure (blake3 t) u ((t, ap (lookup p) (sym (s.0)) ∙ at, refl), s))
        (λ u (_, s). s)

  pub hash_file-Ends :
      (p : FilePath) (w v : World)
      → Same w v.fs v.db
      → Ends
          (λ h u.
            ((t : Text) × (lookup p w.fs ≡ some (file t)) × (h ≡ blake3 t)) × Same w u.fs u.db)
          (λ u. Same w u.fs u.db)
          (hash_file blake3 p v)
  unfolding hash_file
  hash_file-Ends p w v same =
      Keeps-then (metadata_len p) _ v (len-Keeps {P = Same w} p) same
        (λ n u s. by_size (ltb n 10485760) u s) (λ u s. s)
    where
      by_size :
          (b : Bool) (u : World)
          → Same w u.fs u.db
          → Ends {A = Blake3Hash}
              (λ h u.
                ((t : Text) × (lookup p w.fs ≡ some (file t)) × (h ≡ blake3 t)) × Same w u.fs u.db)
              (λ u. Same w u.fs u.db)
              ((if b then hash_file_small blake3 p else hash_file_large blake3 p) u)
      by_size true u s = content-Ends p w u s
      by_size false u s = content-Ends p w u s

  is_pinned-Ends :
      (hash : Blake3Hash) (w v : World)
      → Same w v.fs v.db
      → Ends
          (λ b u.
            (b ≡ true → (m : Model) × (get_model hash w.db ≡ some m) × (m.pinned ≡ true))
            × Same w u.fs u.db)
          (λ u. Same w u.fs u.db)
          (is_pinned hash v)
  unfolding is_pinned
  is_pinned-Ends hash w v same =
      Ends-bind (query (get_model hash)) _ v
        (Ends-and (query (get_model hash)) v (query-Ends (get_model hash) v)
          (query-Keeps {P = Same w} (get_model hash)) same)
        (λ found u ((e, _, _), s).
          Ends-pure (is_pin found) u (by_row found (e ∙ ap (get_model hash) (same.1)), s))
        (λ u (_, s). s)
    where
      by_row :
          (found : Option Model)
          → found ≡ get_model hash w.db
          → is_pin found ≡ true
          → (m : Model) × (get_model hash w.db ≡ some m) × (m.pinned ≡ true)
      by_row none e k = cc
      by_row (some m) e k = (m, sym e, k)

  pinned_if_hashed-Ends :
      (f : FileInfo) (r : Result Blake3Hash) (w v : World)
      → ((h : Blake3Hash)
          → r ≡ ok h
          → (t : Text) × (lookup f.path w.fs ≡ some (file t)) × (h ≡ blake3 t))
      → Same w v.fs v.db
      → Ends
          (λ b u. (b ≡ true → IsPinned blake3 w f) × Same w u.fs u.db)
          (λ u. Same w u.fs u.db)
          (pinned_if_hashed r v)
  unfolding is_pinned
  pinned_if_hashed-Ends f (err e) w v read same = Ends-pure false v (λ k. cc, same)
  pinned_if_hashed-Ends f (ok h) w v read same =
      Ends-bind (try (is_pinned h)) _ v (tried-Ends (is_pinned h) v (is_pinned-Ends h w v same))
        (λ r u (good, bad). Ends-pure (or_false r) u (by_answer r u good, kept r u good bad))
        (λ u s. s)
    where
      by_answer :
          (r : Result Bool) (u : World)
          → ((b : Bool)
              → r ≡ ok b
              → (b ≡ true → (m : Model) × (get_model h w.db ≡ some m) × (m.pinned ≡ true))
                × Same w u.fs u.db)
          → or_false r ≡ true
          → IsPinned blake3 w f
      by_answer (ok b) u good k =
          let (t, at, e) = read h refl in
          let (m, row, pinned) = (good b refl).0 k in
          (t, m, at, ap (λ x. get_model x w.db) (sym e) ∙ row, pinned)
      by_answer (err x) u good k = cc

      kept :
          (r : Result Bool) (u : World)
          → ((b : Bool)
              → r ≡ ok b
              → (b ≡ true → (m : Model) × (get_model h w.db ≡ some m) × (m.pinned ≡ true))
                × Same w u.fs u.db)
          → ((e : Error) → r ≡ err e → Same w u.fs u.db)
          → Same w u.fs u.db
      kept (ok b) u good bad = (good b refl).1
      kept (err x) u good bad = bad x refl

  -- The loop returns a pinned file, or none.
  pub first_pinned-Ends :
      (files : List FileInfo) (w v : World)
      → Same w v.fs v.db
      → Ends
          (λ o u.
            ((c : FileInfo) → o ≡ some c → IsOneOf c files × IsPinned blake3 w c)
            × Same w u.fs u.db)
          (λ u. Same w u.fs u.db)
          (first_pinned blake3 files v)
  unfolding first_pinned
  first_pinned-Ends [] w v same = Ends-pure none v (λ c e. cc, same)
  first_pinned-Ends (f ∷ fs) w v same =
      Ends-bind (try (hash_file blake3 f.path)) _ v
        (tried-Ends (hash_file blake3 f.path) v (hash_file-Ends f.path w v same))
        (λ r u (good, bad).
          Ends-bind (pinned_if_hashed r) _ u
            (pinned_if_hashed-Ends f r w u (λ h k. (good h k).0) (kept r u good bad))
            (λ b x (pinned, s). by_pin b x pinned s (first_pinned-Ends fs w)) (λ x s. s))
        (λ u s. s)
    where
      kept :
          (r : Result Blake3Hash) (u : World)
          → ((h : Blake3Hash)
              → r ≡ ok h
              → ((t : Text) × (lookup f.path w.fs ≡ some (file t)) × (h ≡ blake3 t))
                × Same w u.fs u.db)
          → ((e : Error) → r ≡ err e → Same w u.fs u.db)
          → Same w u.fs u.db
      kept (ok b) u good bad = (good b refl).1
      kept (err x) u good bad = bad x refl

      same_file : {a b : FileInfo} → some a ≡ some b → b ≡ a
      same_file k = cc

      by_pin :
          (b : Bool) (x : World)
          → (b ≡ true → IsPinned blake3 w f)
          → Same w x.fs x.db
          → ((v : World)
              → Same w v.fs v.db
              → Ends
                  (λ o u.
                    ((c : FileInfo) → o ≡ some c → IsOneOf c fs × IsPinned blake3 w c)
                    × Same w u.fs u.db)
                  (λ u. Same w u.fs u.db)
                  (first_pinned blake3 fs v))
          → Ends {A = Option FileInfo}
              (λ o u.
                ((c : FileInfo) → o ≡ some c → IsOneOf c (f ∷ fs) × IsPinned blake3 w c)
                × Same w u.fs u.db)
              (λ u. Same w u.fs u.db)
              ((if b then pure (some f) else first_pinned blake3 fs) x)
      by_pin true x pinned s rest = Ends-pure (some f) x (
        λ c e. (inl (same_file e), subst (IsPinned blake3 w) (sym (same_file e)) (pinned refl)),
        s,
      )
      by_pin false x pinned s rest =
          Ends-mono (rest x s) (λ o u (h, k). (λ c e. (inr (h c e).0, (h c e).1), k)) (λ u k. k)
