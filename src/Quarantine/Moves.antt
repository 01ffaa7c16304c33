-- ===== src/Quarantine/Moves.antt =====
-- How `move_file` (crates/modeld-core/src/quarantine.rs) moves a file, whatever calls fail.
use model_id.Base.{◌≡◌, ◌≢◌, ap, ◌∙◌, none, some, arith, list_eq, nat_eq, if◌then◌else◌}
use model_id.Base.Text.{Text}
use model_id.Base.Dict.{lookup, erase, lookup-erase}
use model_id.Base.Results.{Result, ok, err}
use model_id.Sys.{FilePath, Fs, file, World, pure, try, ◌>>◌}
use model_id.Sys.Files.{copy, rename, remove_file}
use model_id.Sys.Keeps.{
  Keeps, Holds, Keeps-bind, Keeps-try, Keeps-if, Keeps-pure, copy-Holds, rename-Holds,
  remove_file-Holds,
}
use model_id.Sys.Results.{
  Ends, Ends-pure, Ends-mono, Ends-bind, Ends-try, Tried, Moved, rename-Ends, copy-Ends,
  remove_file-Ends,
}
use model_id.Quarantine.{move_file, failed}

-- A third file is not touched.
pub move_file-Holds :
    (q : FilePath) (t : Text) (from to : FilePath)
    → from ≢ q
    → to ≢ q
    → Keeps (Holds q t) (move_file from to)
unfolding move_file
move_file-Holds q t from to n m = Keeps-bind _ _ (Keeps-try _ (rename-Holds q t from to n m)) λ r.
    Keeps-if _ _ _
      (λ e. Keeps-bind _ _ (copy-Holds q t from to m) (λ a. remove_file-Holds q t from n))
      (λ e. Keeps-pure tt)

module _ (from to : FilePath) (t : Text) (apart : from ≢ to) where
  gone :
      (fs : Fs)
      → (lookup to fs ≡ some (file t)) × (lookup from fs ≡ some (file t))
      → (lookup to (erase from fs) ≡ some (file t)) × (lookup from (erase from fs) ≡ none)
  gone fs (h, k) = ground (arith, lookup-erase to from fs, lookup-erase from from fs)

  copied_over :
      (w : World)
      → lookup from w.fs ≡ some (file t)
      → Ends
          (λ _ v. Moved from to t v)
          (λ v. Holds from t v.fs v.db)
          ((copy from to >> remove_file from) w)
  copied_over w h =
      Ends-bind (copy from to) _ w (copy-Ends from to t apart w h)
        (λ a v g.
          Ends-mono (remove_file-Ends from v) (λ b u e. rw e (gone v.fs g))
            (λ u e. ap (lookup from) e ∙ g.1))
        (λ v b. b)

  -- A move that succeeds leaves the content at the target and nothing at the source; one that fails
  -- leaves it at the source.
  pub move_file-Ends :
      (w : World)
      → lookup from w.fs ≡ some (file t)
      → Ends (λ _ v. Moved from to t v) (λ v. Holds from t v.fs v.db) (move_file from to w)
  unfolding move_file
  move_file-Ends w h =
      Ends-bind (try (rename from to)) _ w
        (Ends-try {Bad' = λ v. Holds from t v.fs v.db} (rename from to) w
          (rename-Ends from to t apart w h))
        after (λ v b. b)
    where
      after :
          (r : Result (Unit {0})) (v : World)
          → Tried (λ _ u. Moved from to t u) (λ u. u.fs ≡ w.fs) r v
          → Ends
              (λ _ u. Moved from to t u)
              (λ u. Holds from t u.fs u.db)
              ((if failed r then (do copy from to; remove_file from) else pure tt) v)
      after (ok a) v g = Ends-pure tt v g
      after (err e) v g = copied_over v (ap (lookup from) g ∙ h)
