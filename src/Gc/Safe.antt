-- ===== src/Gc/Safe.antt =====
-- What a run of the collector (crates/modeld-core/src/gc.rs) leaves alone, whatever calls fail.
use model_id.Base.{
  ℕ, ◌≤◌, ◌≡◌, ◌≢◌, refl, ap, ◌⊎◌, inl, inr, Bool, true, false, Option, none, some, List, [], ◌∷◌,
  arith, list_eq, nat_eq, if◌then◌else◌, All, map,
}
use model_id.Base.Text.{Text}
use model_id.Base.Dict.{lookup}
use model_id.Base.Results.{Error, Result, ok, err}
use model_id.Hash.{Blake3Hash}
use model_id.Db.{Database, Model}
use model_id.Db.Table.{count_where}
use model_id.Db.Order.{order_desc-All}
use model_id.Db.Counts.{row_of, get_gc_candidate_counts}
use model_id.Db.Aliases.{of_model}
use model_id.Db.Workflows.{to_model}
use model_id.Sys.{FilePath, World, Fs, file}
use model_id.Sys.Files.{join, parent}
use model_id.Sys.Tables.{query, execute}
use model_id.Sys.Keeps.{
  Keeps, Holds, Keeps-bind, Keeps-call, Keeps-if, Keeps-pure, Keeps-throw, Keeps-try, Keeps-gets,
  Keeps-bind_gets, Keeps-now, create_dir_all-Holds, metadata_len-Holds, write-Holds,
}
use model_id.Sys.Results.{Ends-after, Ends-and, Ends-bind, Ends-pure, Keeps-then}
use model_id.Quarantine.{Serde, QuarantineManager, init, or_throw, quarantine, cleanup_expired}
use model_id.Quarantine.Moves.{move_file-Holds}
use model_id.Quarantine.Cleanup.{cleanup_expired-Holds}
use model_id.Cas.{CasStore, path_for_hash, get, contains}
use model_id.Cas.Paths.{path_for_hash-not_inside, path_for_hash-injective, path_for_hash-apart}
use model_id.Gc.{
  RefStatus, hard_reference, soft_reference, pinned, recently_used, unknown, orphan_candidate,
  ref_status, GcCandidate, GcResult, new, candidate_of, candidates, after_quarantine, quarantine_at,
  run_status, run_all, run_safe,
}
use model_id.Gc.Agree.{candidates-Ends}

or_throw-Holds :
    {A : Type 0} (p : FilePath) (t : Text) (e : Error) (o : Option A)
    → Keeps (Holds p t) (or_throw e o)
or_throw-Holds p t e none = Keeps-throw e
or_throw-Holds p t e (some a) = Keeps-pure a

query-Holds :
    {A : Type 0} (p : FilePath) (t : Text) (f : Database → A) → Keeps (Holds p t) (query f)
unfolding query
query-Holds p t f = Keeps-call _ _ (λ w h. h) (λ o w h. h)

execute-Holds : (p : FilePath) (t : Text) (f : Database → Database) → Keeps (Holds p t) (execute f)
unfolding execute
execute-Holds p t f = Keeps-call _ _ (λ w h. h) (λ o w h. h)

quarantine-Holds :
    (json : Serde) (q : QuarantineManager) (p : FilePath) (t : Text) (file_path : FilePath)
    (hash reason : Text) (references : List FilePath)
    → file_path ≢ p
    → ((name : Text) → join q.quarantine_dir name ≢ p)
    → Keeps (Holds p t) (quarantine json q file_path hash reason references)
unfolding quarantine init
quarantine-Holds json q p t file_path hash reason references n outside =
    Keeps-bind _ _ (create_dir_all-Holds p t _) λ _. Keeps-bind _ _ Keeps-now λ at.
      Keeps-bind _ _ (metadata_len-Holds p t _) λ size.
        Keeps-bind _ _ (or_throw-Holds p t _ _) λ text.
          Keeps-bind _ _ (write-Holds p t _ _ (outside _))
            λ _. Keeps-bind _ _ (move_file-Holds p t _ _ n (outside _)) λ _. Keeps-pure _

-- Something keeps the model of the hash: an alias, a workflow's reference, or the user's pin.
abbrev pub IsKept : Blake3Hash → Database → Type 0
IsKept h db =
    (1 ≤ count_where (of_model h) db.aliases)
    ⊎ (1 ≤ count_where (to_model h) db.workflow_refs)
    ⊎ All (λ (m : Model). m.blake3_hash ≡ h → m.pinned ≡ true) db.models

-- A candidate that is up for collection is not of the hash.
abbrev Spares : Blake3Hash → GcCandidate → Type 0
Spares h c = c.status ≡ orphan_candidate → c.model.blake3_hash ≢ h

alias_kept : (pin : Bool) (r a : ℕ) → 1 ≤ a → ref_status pin r a ≢ orphan_candidate
unfolding ref_status
alias_kept pin r a h = ground arith

ref_kept : (pin : Bool) (r a : ℕ) → 1 ≤ r → ref_status pin r a ≢ orphan_candidate
unfolding ref_status
ref_kept pin r a h = ground arith

pin_kept : (pin : Bool) (r a : ℕ) → pin ≡ true → ref_status pin r a ≢ orphan_candidate
unfolding ref_status
pin_kept pin r a h = ground arith

module _ (cas : CasStore) (w : World) (h : Blake3Hash) (db : Database) where
  rows-Spares :
      (ms : List Model)
      → (1 ≤ count_where (of_model h) db.aliases)
        ⊎ (1 ≤ count_where (to_model h) db.workflow_refs)
        ⊎ All (λ (m : Model). m.blake3_hash ≡ h → m.pinned ≡ true) ms
      → All (Spares h) (map (candidate_of cas w) (map (row_of db) ms))
  rows-Spares [] k = tt
  rows-Spares (m ∷ ms) (inl a) = (λ s e. alias_kept _ _ _ (rw e a) s, rows-Spares ms (inl a))
  rows-Spares (m ∷ ms) (inr (inl r)) =
      (λ s e. ref_kept _ _ _ (rw e r) s, rows-Spares ms (inr (inl r)))
  rows-Spares (m ∷ ms) (inr (inr (p, ps))) =
      (λ s e. pin_kept _ _ _ (p e) s, rows-Spares ms (inr (inr ps)))

  candidates-Spares :
      IsKept h db → All (Spares h) (map (candidate_of cas w) (get_gc_candidate_counts db))
  unfolding get_gc_candidate_counts
  candidates-Spares (inl a) = rows-Spares _ (inl a)
  candidates-Spares (inr (inl r)) = rows-Spares _ (inr (inl r))
  candidates-Spares (inr (inr ps)) = rows-Spares _ (inr (inr (order_desc-All _ _ db.models ps)))

module _ (json : Serde) (store : FilePath) (h : Blake3Hash) (t : Text) where
  abbrev Kept : Fs → Database → Type 0
  Kept = Holds (path_for_hash (new store).cas h) t

  outside :
      (name : Text)
      → join (new store).quarantine.quarantine_dir name ≢ path_for_hash (new store).cas h
  outside name = path_for_hash-apart (new store).cas h name

  after_quarantine-Kept :
      (c : GcCandidate) (r : GcResult) (moved : Result FilePath)
      → Keeps Kept (after_quarantine c r moved)
  after_quarantine-Kept c r (err e) = Keeps-pure r
  after_quarantine-Kept c r (ok path) =
      Keeps-bind _ _
        (Keeps-bind _ _ Keeps-now λ at.
          Keeps-bind _ _ (Keeps-try _ (execute-Holds _ t _))
            λ _. Keeps-bind _ _ (Keeps-try _ (execute-Holds _ t _)) λ _. Keeps-pure tt)
        λ _. Keeps-pure _

  quarantine_at-Kept :
      (c : GcCandidate) (r : GcResult) (w : World)
      → c.model.blake3_hash ≢ h
      → Keeps Kept (quarantine_at json (new store) c r (get (new store).cas c.model.blake3_hash w))
  unfolding quarantine_at init
  quarantine_at-Kept c r w n = by_exists (contains (new store).cas c.model.blake3_hash w)
    where
      apart : path_for_hash (new store).cas c.model.blake3_hash ≢ path_for_hash (new store).cas h
      apart e = n (
          ap (λ x. record { hex = x })
            (path_for_hash-injective (new store).cas c.model.blake3_hash h e))

      by_exists :
          (b : Bool)
          → Keeps Kept (
              quarantine_at json
                (new store)
                c
                r
                (if b then some (path_for_hash (new store).cas c.model.blake3_hash) else none))
      by_exists false = Keeps-pure r
      by_exists true = Keeps-bind _ _ (create_dir_all-Holds _ t _) λ _.
          Keeps-bind _ _ (Keeps-try _ (quarantine-Holds json _ _ t _ _ _ _ apart outside))
            λ moved. after_quarantine-Kept c r moved

  run_status-Kept :
      (s : RefStatus) (c : GcCandidate) (r : GcResult)
      → (s ≡ orphan_candidate → c.model.blake3_hash ≢ h)
      → Keeps Kept (run_status json (new store) s c r)
  run_status-Kept orphan_candidate c r n =
      Keeps-if c.cas_file_exists _ _
        (λ _. Keeps-bind_gets _ _ λ w. quarantine_at-Kept c r w (n refl)) (λ _. Keeps-pure r)
  run_status-Kept hard_reference c r n = Keeps-pure _
  run_status-Kept soft_reference c r n = Keeps-pure _
  run_status-Kept pinned c r n = Keeps-pure _
  run_status-Kept recently_used c r n = Keeps-pure _
  run_status-Kept unknown c r n = Keeps-pure _

  run_all-Kept :
      (cs : List GcCandidate) (r : GcResult)
      → All (Spares h) cs
      → Keeps Kept (run_all json (new store) cs r)
  unfolding run_all
  run_all-Kept [] r _ = Keeps-pure r
  run_all-Kept (c ∷ cs) r (n, ns) =
      Keeps-bind _ _ (run_status-Kept c.status c r n) λ r'. run_all-Kept cs r' ns

  candidates-Kept : Keeps Kept (candidates (new store))
  unfolding candidates
  candidates-Kept = Keeps-bind _ _ (query-Holds _ t _) λ rows. Keeps-gets _

  not_inside : parent (path_for_hash (new store).cas h) ≢ some (new store).quarantine.quarantine_dir
  not_inside = path_for_hash-not_inside (new store).cas h

  -- A run of the collector over a store, whatever calls fail, leaves the store's object of a hash as
  -- it is, if an alias, a workflow's reference or the pin of each model of that hash keeps it.
  pub run_safe-Kept :
      (w : World)
      → IsKept h w.db
      → lookup (path_for_hash (new store).cas h) w.fs ≡ some (file t)
      → lookup (path_for_hash (new store).cas h) (run_safe json (new store) w).1.fs ≡ some (file t)
  unfolding run_safe
  run_safe-Kept w kept k = Ends-after (run_safe json (new store) w) (
      Ends-bind (candidates (new store)) _ w
        (Ends-and (candidates (new store)) w (candidates-Ends (new store) w) candidates-Kept k)
        (λ cs v (e, g).
          Keeps-then (run_all json (new store) cs _) _ v
            (run_all-Kept cs _ (rw e (candidates-Spares (new store).cas v h w.db kept))) g
            (λ r u g2.
              Keeps-then (cleanup_expired json _) _ u cleanup_expired-Kept g2
                (λ n x g3. Ends-pure _ x g3) (λ x g3. g3))
            (λ u g2. g2))
        (λ v (_, g). g))
    where
      cleanup_expired-Kept : Keeps Kept (cleanup_expired json (new store).quarantine)
      cleanup_expired-Kept = record {
        at = λ u g. cleanup_expired-Holds json (new store).quarantine _ t not_inside u g;
      }
