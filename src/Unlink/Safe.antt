-- ===== src/Unlink/Safe.antt =====
-- What `unlink_path` (crates/modeld-core/src/unlink.rs) comes to, whatever calls fail.
use model_id.Base.{
  ◌≡◌, ◌≢◌, inl, inr, sym, ap, subst, ◌∙◌, Bool, true, false, none, some, if◌then◌else◌, list_eq,
  nat_eq,
}
use model_id.Base.Text.{Text}
use model_id.Base.Dict.{lookup}
use model_id.Base.Results.{not_found, already_original}
use model_id.Db.{Alias}
use model_id.Db.Aliases.{get_alias_by_path}
use model_id.Cas.{new, get, path_for_hash}
use model_id.Sys.{FilePath, World, file, throw, gets, ◌>>=◌}
use model_id.Sys.Files.{parent, is_some, metadata_len}
use model_id.Sys.Tables.{query}
use model_id.Sys.Apart.{len-Keeps, query-Keeps}
use model_id.Sys.Keeps.{Holds}
use model_id.Sys.Results.{
  Ends, Ends-pure, Ends-throw, Ends-bind, Ends-and, Keeps-then, query-Ends, gets-Ends,
}
use model_id.Tx.Rows.{or_throw-Ends}
use model_id.Tx.{or_throw}
use model_id.Unlink.{
  UnlinkResult, is_original, tmp_path, replace_file, make_original, unlink_at, unlink_alias,
  unlink_path,
}
use model_id.Unlink.Replace.{Both, Either, IsOriginal, replace_file-Ends, make_original-Ends}

module _ (store_path path dir : FilePath) (alias : Alias) (old t : Text) where
  abbrev pub object_of : FilePath
  object_of = path_for_hash (new store_path) alias.model_hash

  abbrev pub IsUnlinked : World → Type 0
  IsUnlinked v = Both path object_of t v.fs × IsOriginal path alias.model_hash v.db

  abbrev pub IsIntact : World → Type 0
  IsIntact v = Either path object_of old t v.fs

  unlink_at-Ends :
      (w : World)
      → object_of ≢ path
      → tmp_path dir alias.model_hash ≢ path
      → object_of ≢ tmp_path dir alias.model_hash
      → Holds path old w.fs w.db
      → Holds object_of t w.fs w.db
      → Ends (λ _ v. IsUnlinked v) IsIntact (unlink_at path alias object_of dir w)
  unlink_at-Ends w a b c h g =
      Keeps-then (metadata_len object_of) _ w
        (len-Keeps
          {P = λ fs _. (lookup path fs ≡ some (file old)) × (lookup object_of fs ≡ some (file t))}
          object_of)
        (h, g)
        (λ size v (h1, g1).
          Ends-bind (replace_file object_of (tmp_path dir alias.model_hash) path) _ v
            (replace_file-Ends path object_of (tmp_path dir alias.model_hash) old t a b c v h1 g1)
            (λ _ u both.
              Ends-bind (make_original alias path) _ u
                (make_original-Ends path object_of (tmp_path dir alias.model_hash) old t a b c alias
                  u both)
                (λ _ x done. Ends-pure _ x done) (λ x (p, q). (inr p, q)))
            (λ u e. e))
        (λ v (p, q). (inl p, q))

  -- `unlink_path` of a path whose alias is of an object that is there, whatever calls fail: if it
  -- returns, the path holds the content of the object and has an alias as an independent file;
  -- otherwise it holds this or its old content; and the object is as it was. The object, the path
  -- and the file for the copy are three paths.
  pub unlink_path-IsUnlinked :
      (w : World)
      → object_of ≢ path
      → tmp_path dir alias.model_hash ≢ path
      → object_of ≢ tmp_path dir alias.model_hash
      → parent path ≡ some dir
      → get_alias_by_path path w.db ≡ some alias
      → Holds path old w.fs w.db
      → Holds object_of t w.fs w.db
      → Ends (λ _ v. IsUnlinked v) IsIntact (unlink_path store_path path w)
  unfolding unlink_path
  unlink_path-IsUnlinked w a b c dir_of row h g =
      Ends-bind (query (get_alias_by_path path)) _ w
        (Ends-and (query (get_alias_by_path path)) w (query-Ends (get_alias_by_path path) w)
          (query-Keeps
            {P = λ fs _. (lookup path fs ≡ some (file old)) × (lookup object_of fs ≡ some (file t))}
            (get_alias_by_path path))
          (h, g))
        (λ found v ((e, _, _), k).
          Ends-bind (or_throw not_found found) _ v (or_throw-Ends not_found found v)
            (λ al u (q, same). by_alias al u (same_alias (sym row ∙ sym e ∙ q)) (
              subst
                (λ (x : World).
                  (lookup path x.fs ≡ some (file old)) × (lookup object_of x.fs ≡ some (file t)))
                (sym same) k))
            (λ u same. subst IsIntact (sym same) (inl k.0, k.1)))
        (λ v (_, k). (inl k.0, k.1))
    where
      same_alias : {x y : Alias} → some x ≡ some y → x ≡ y
      same_alias q = cc

      same_path : {x y : FilePath} → some x ≡ some y → x ≡ y
      same_path q = cc

      Files : World → Type 0
      Files u = (lookup path u.fs ≡ some (file old)) × (lookup object_of u.fs ≡ some (file t))

      left_alone : (u : World) → Files u → IsIntact u
      left_alone u (p, o) = (inl p, o)

      object_there :
          (u : World)
          → lookup object_of u.fs ≡ some (file t)
          → get (new store_path) alias.model_hash u ≡ some object_of
      object_there u o = ap (λ n. if is_some n then some object_of else none) o

      at_dir :
          (cas_path d : FilePath) (z : World)
          → object_of ≡ cas_path
          → dir ≡ d
          → Files z
          → Ends (λ _ v. IsUnlinked v) IsIntact (unlink_at path alias cas_path d z)
      at_dir cas_path d z e f (p, o) =
          subst (λ x. Ends (λ _ v. IsUnlinked v) IsIntact (unlink_at path alias x d z)) e
            (subst (λ x. Ends (λ _ v. IsUnlinked v) IsIntact (unlink_at path alias object_of x z)) f
              (unlink_at-Ends z a b c p o))

      located :
          (u : World)
          → (lookup path u.fs ≡ some (file old)) × (lookup object_of u.fs ≡ some (file t))
          → Ends
              (λ _ v. IsUnlinked v)
              IsIntact
              ((gets (get (new store_path) alias.model_hash) >>= λ object.
                  or_throw not_found object >>= λ cas_path.
                  or_throw not_found (parent path) >>= λ d. unlink_at path alias cas_path d)
                u)
      located u (p, o) =
          Ends-bind (gets (get (new store_path) alias.model_hash)) _ u
            (gets-Ends (get (new store_path) alias.model_hash) u)
            (λ object x (e, same).
              Ends-bind (or_throw not_found object) _ x (or_throw-Ends not_found object x)
                (λ cas_path y (q, same2).
                  Ends-bind (or_throw not_found (parent path)) _ y
                    (or_throw-Ends not_found (parent path) y)
                    (λ d z (r, same3).
                      at_dir cas_path d z
                        (same_path (
                          sym (object_there u o)
                          ∙ ap (get (new store_path) alias.model_hash) (sym same)
                          ∙ sym e
                          ∙ q))
                        (same_path (sym dir_of ∙ r))
                        (subst Files (sym (same3 ∙ same2 ∙ same)) (p, o)))
                    (λ z same3. left_alone z (subst Files (sym (same3 ∙ same2 ∙ same)) (p, o))))
                (λ y same2. left_alone y (subst Files (sym (same2 ∙ same)) (p, o))))
            (λ x f. f)

      by_type :
          (b : Bool) (u : World)
          → (lookup path u.fs ≡ some (file old)) × (lookup object_of u.fs ≡ some (file t))
          → Ends {A = UnlinkResult}
              (λ _ v. IsUnlinked v)
              IsIntact
              ((if b
                  then throw already_original
                  else (gets (get (new store_path) alias.model_hash) >>= λ object.
                      or_throw not_found object >>= λ cas_path.
                      or_throw not_found (parent path) >>= λ d. unlink_at path alias cas_path d))
                u)
      by_type true u (p, o) = Ends-throw already_original u (inl p, o)
      by_type false u k = located u k

      by_alias :
          (al : Alias) (u : World)
          → alias ≡ al
          → (lookup path u.fs ≡ some (file old)) × (lookup object_of u.fs ≡ some (file t))
          → Ends (λ _ v. IsUnlinked v) IsIntact (unlink_alias store_path path al u)
      by_alias al u q k =
          subst (λ x. Ends (λ _ v. IsUnlinked v) IsIntact (unlink_alias store_path path x u)) q
            (by_type (is_original alias.alias_type) u k)
