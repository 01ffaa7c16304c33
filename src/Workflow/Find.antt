-- ===== src/Workflow/Find.antt =====
-- `find_workflow_files` of crates/modeld-core/src/workflow.rs.
use model_id.Base.{
  ℕ, zero, suc, Bool, true, false, none, some, List, [], ◌∷◌, ◌++◌, if◌then◌else◌, list_eq, nat_eq,
  ◌==◌,
}
use model_id.Base.Text.{codes, starts_with}
use model_id.Sys.{FilePath, M, pure, gets, ◌>>=◌}
use model_id.Sys.Files.{extension, file_name, read_dir}
use model_id.Sys.Walk.{is_dir, deepest}

abbrev pub is_json : FilePath → Bool
is_json p = elim (extension (file_name p)) [ none ↦ false | some e ↦ e == codes "json" ]

-- Hidden directories are passed over.
abbrev pub find_entry :
    (FilePath → List FilePath → M (List FilePath))
    → Bool
    → FilePath
    → List FilePath
    → M (List FilePath)
find_entry recur true p out =
    if starts_with (codes ".") (file_name p) then pure out else recur p out
find_entry recur false p out = pure (if is_json p then out ++ p ∷ [] else out)

-- The loop, with `recur` for the recursive call.
unfoldable pub find_entries :
    (FilePath → List FilePath → M (List FilePath))
    → List FilePath
    → List FilePath
    → M (List FilePath)
unfolding extension file_name starts_with
find_entries recur [] out = pure out
find_entries recur (p ∷ ps) out = do
  below ← gets (is_dir p)
  out' ← find_entry recur below p out
  find_entries recur ps out'

abbrev pub in_dir :
    (FilePath → List FilePath → M (List FilePath))
    → Bool
    → FilePath
    → List FilePath
    → M (List FilePath)
in_dir recur false dir out = pure out
in_dir recur true dir out = do entries ← read_dir dir; find_entries recur entries out

-- With so many levels at most.
unfoldable pub find_within : ℕ → FilePath → List FilePath → M (List FilePath)
unfolding find_entries
find_within zero dir out = pure out
find_within (suc n) dir out = do there ← gets (is_dir dir); in_dir (find_within n) there dir out

unfoldable pub find_workflow_files : FilePath → M (List FilePath)
unfolding find_within deepest
find_workflow_files dir = do levels ← gets (λ w. deepest w.fs); find_within (suc levels) dir []
