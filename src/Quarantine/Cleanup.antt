-- ===== src/Quarantine/Cleanup.antt =====
-- What `list` returns and what `cleanup_expired` may delete (crates/modeld-core/src/quarantine.rs),
-- whatever calls fail.
use model_id.Base.{
  ℕ, ◌≡◌, ◌≢◌, ap, sym, ◌∙◌, Bool, true, false, not, Option, none, some, List, [], ◌∷◌, list_eq,
  nat_eq, if◌then◌else◌, All,
}
use model_id.Base.Text.{Text}
use model_id.Base.Results.{Result, ok, err}
use model_id.Db.Table.{order_desc}
use model_id.Db.Order.{order_desc-All}
use model_id.Sys.{FilePath, World, M, pure, gets, try, now, ◌>>=◌}
use model_id.Sys.Files.{exists, parent, parent-join, read_dir, read_to_string}
use model_id.Sys.Keeps.{
  Keeps, Holds, Keeps-bind, Keeps-if, Keeps-pure, Keeps-try, Keeps-gets, Keeps-now,
  remove_file-Holds, read_dir-Holds, read_to_string-Holds,
}
use model_id.Sys.Results.{
  Ends, Ends-after, Ends-and, Keeps-Ends, Ends-pure, Ends-bind, any_end, read_dir-Ends,
}
use model_id.Quarantine.{
  QuarantineMeta, days_left, QuarantineEntry, QuarantineManager, Serde, meta_path_for, is_meta,
  onto, entry_of, read_entry, read_entries, list, delete_permanent, delete_expired, cleanup_expired,
  tally,
}

module _ (json : Serde) (q : QuarantineManager) where
  -- The entry's file stands right in the quarantine directory.
  abbrev pub IsInside : QuarantineEntry → Type 0
  IsInside e = parent e.quarantine_path ≡ some q.quarantine_dir

  abbrev AllInside : Option QuarantineEntry → Type 0
  AllInside none = Unit
  AllInside (some e) = IsInside e

  read_entry-Inside :
      (at : ℕ) (path : FilePath) (w : World)
      → parent path ≡ some q.quarantine_dir
      → Ends (λ o _. AllInside o) (λ _. Unit) (read_entry json q at path w)
  unfolding read_entry
  read_entry-Inside at path w h =
      Ends-bind (gets (exists (meta_path_for json q path))) _ w
        (any_end (gets (exists (meta_path_for json q path))) w) by_found (λ v _. tt)
    where
      of_text : (r : Result Text) → AllInside (entry_of json q at path r)
      of_text (err e) = tt
      of_text (ok text) = of_meta (json.from_str text)
        where
          of_meta :
              (o : Option QuarantineMeta)
              → AllInside (elim o [
                | none ↦ none
                | some meta ↦ some (record {
                  quarantine_path = path;
                  meta = meta;
                  days_remaining = days_left json q at meta;
                })
              ])
          of_meta none = tt
          of_meta (some meta) = h

      by_found :
          (found : Bool) (v : World)
          → Unit {0}
          → Ends
              (λ o _. AllInside o)
              (λ _. Unit)
              ((if not found then pure none else do
                text ← try (read_to_string (meta_path_for json q path))
                pure (entry_of json q at path text))
                v)
      by_found false v _ = Ends-pure none v tt
      by_found true v _ =
          Ends-bind (try (read_to_string (meta_path_for json q path))) _ v
            (any_end (try (read_to_string (meta_path_for json q path))) v)
            (λ r u _. Ends-pure (entry_of json q at path r) u (of_text r)) (λ u _. tt)

  read_entries-Inside :
      (at : ℕ) (paths : List FilePath) (w : World)
      → All (λ p. parent p ≡ some q.quarantine_dir) paths
      → Ends (λ es _. All IsInside es) (λ _. Unit) (read_entries json q at paths w)
  unfolding read_entries
  read_entries-Inside at [] w _ = Ends-pure [] w tt
  read_entries-Inside at (path ∷ paths) w (h, hs) =
      by_meta (read_entries json q at paths) _ (is_meta path) (read_entries-Inside at paths w hs) (
        Ends-bind (read_entry json q at path) _ w (read_entry-Inside at path w h)
          (λ o v ho.
            Ends-bind (read_entries json q at paths) _ v (read_entries-Inside at paths v hs)
              (λ es u hes. Ends-pure _ u (both o es ho hes)) (λ u _. tt))
          (λ v _. tt))
    where
      by_meta :
          (m n : M (List QuarantineEntry)) (b : Bool)
          → Ends (λ es _. All IsInside es) (λ _. Unit) (m w)
          → Ends (λ es _. All IsInside es) (λ _. Unit) (n w)
          → Ends (λ es _. All IsInside es) (λ _. Unit) ((if b then m else n) w)
      by_meta m n true h k = h
      by_meta m n false h k = k

      both :
          (o : Option QuarantineEntry) (es : List QuarantineEntry)
          → AllInside o
          → All IsInside es
          → All IsInside (onto json q o es)
      both none es _ h = h
      both (some e) es k h = (k, h)

  -- Every entry that `list` returns is a file right in the quarantine directory.
  pub list-Inside : (w : World) → Ends (λ es _. All IsInside es) (λ _. Unit) (list json q w)
  unfolding list
  list-Inside w =
      Ends-bind (gets (exists q.quarantine_dir)) _ w (any_end (gets (exists q.quarantine_dir)) w)
        by_there (λ v _. tt)
    where
      by_there :
          (there : Bool) (v : World)
          → Unit {0}
          → Ends
              (λ es _. All IsInside es)
              (λ _. Unit)
              ((if not there then pure [] else do
                at ← now
                paths ← read_dir q.quarantine_dir
                entries ← read_entries json q at paths
                pure (order_desc (λ (e : QuarantineEntry). e.meta.quarantined_at) entries))
                v)
      by_there false v _ = Ends-pure [] v tt
      by_there true v _ =
          Ends-bind now _ v (any_end now v)
            (λ at u _.
              Ends-bind (read_dir q.quarantine_dir) _ u (read_dir-Ends _ u)
                (λ paths x hp.
                  Ends-bind (read_entries json q at paths) _ x (read_entries-Inside at paths x hp)
                    (λ es y h. Ends-pure _ y (order_desc-All IsInside _ es h)) (λ y _. tt))
                (λ x _. tt))
            (λ u _. tt)

  module _ (p : FilePath) (t : Text) where
    read_entry-Holds : (at : ℕ) (path : FilePath) → Keeps (Holds p t) (read_entry json q at path)
    unfolding read_entry
    read_entry-Holds at path = Keeps-bind _ _ (Keeps-gets _) λ found.
        Keeps-if (not found) (pure none) _ (λ _. Keeps-pure none)
          λ _. Keeps-bind _ _ (Keeps-try _ (read_to_string-Holds p t _)) λ text. Keeps-pure _

    read_entries-Holds :
        (at : ℕ) (paths : List FilePath) → Keeps (Holds p t) (read_entries json q at paths)
    unfolding read_entries
    read_entries-Holds at [] = Keeps-pure []
    read_entries-Holds at (path ∷ paths) =
        Keeps-if (is_meta path) (read_entries json q at paths) _ (λ _. read_entries-Holds at paths)
          λ _. Keeps-bind _ _ (read_entry-Holds at path) λ entry.
            Keeps-bind _ _ (read_entries-Holds at paths) λ more. Keeps-pure (onto json q entry more)

    pub list-Holds : Keeps (Holds p t) (list json q)
    unfolding list
    list-Holds = Keeps-bind _ _ (Keeps-gets _) λ there.
        Keeps-if (not there) (pure []) _ (λ _. Keeps-pure [])
          λ _. Keeps-bind _ _ Keeps-now λ at.
            Keeps-bind _ _ (read_dir-Holds p t _)
              λ paths. Keeps-bind _ _ (read_entries-Holds at paths) λ entries. Keeps-pure _

    module _ (outside : parent p ≢ some q.quarantine_dir) where
      delete_permanent-Holds :
          (path : FilePath)
          → parent path ≡ some q.quarantine_dir
          → Keeps (Holds p t) (delete_permanent json q path)
      unfolding delete_permanent
      delete_permanent-Holds path h =
          Keeps-bind _ _ (remove_file-Holds p t path (λ e. outside (ap parent (sym e) ∙ h))) λ _.
            Keeps-bind _ _ (Keeps-gets _) λ found.
              Keeps-if _ _ _
                (λ _.
                  Keeps-bind _ _ (Keeps-try _ (remove_file-Holds p t _ other)) λ _. Keeps-pure tt)
                (λ _. Keeps-pure tt)
        where
          other : meta_path_for json q path ≢ p
          other e = outside (ap parent (sym e) ∙ parent-join q.quarantine_dir _)

      delete_expired-Holds :
          (es : List QuarantineEntry) (n : ℕ)
          → All IsInside es
          → Keeps (Holds p t) (delete_expired json q es n)
      unfolding delete_expired
      delete_expired-Holds [] n _ = Keeps-pure n
      delete_expired-Holds (e ∷ es) n (h, hs) =
          by_days e.days_remaining (delete_expired-Holds es n hs) (
            Keeps-bind _ _ (Keeps-try _ (delete_permanent-Holds e.quarantine_path h))
              λ gone. delete_expired-Holds es (tally json q gone n) hs)
        where
          by_days :
              (days : Option ℕ)
              → Keeps (Holds p t) (delete_expired json q es n)
              → Keeps (Holds p t) (do
                gone ← try (delete_permanent json q e.quarantine_path)
                delete_expired json q es (tally json q gone n))
              → Keeps (Holds p t) (elim days [
                | none ↦ (do
                  gone ← try (delete_permanent json q e.quarantine_path)
                  delete_expired json q es (tally json q gone n))
                | some d ↦ delete_expired json q es n
              ])
          by_days none k m = m
          by_days (some d) k m = k

      -- Whatever calls fail, `cleanup_expired` leaves a file as it is that does not stand right in
      -- the quarantine directory.
      pub cleanup_expired-Holds :
          (w : World)
          → Holds p t w.fs w.db
          → Holds p t (cleanup_expired json q w).1.fs (cleanup_expired json q w).1.db
      unfolding cleanup_expired
      cleanup_expired-Holds w h = Ends-after (cleanup_expired json q w) (
          Ends-bind (list json q) _ w (Ends-and (list json q) w (list-Inside w) list-Holds h)
            (λ es v (inside, g). Keeps-Ends _ v (delete_expired-Holds es 0 inside) g)
            (λ v (_, g). g))
