-- ===== src/Scanner.antt =====
-- crates/modeld-core/src/scanner.rs: the glob patterns by which scans and deduplication leave out
-- paths. The walk itself is not modelled.
pub mod Glob
pub mod Scan
pub mod Digests
pub mod Selected
mod Tests
mod Walks
use mathlib.Core.Bool.{not}
use model_id.Base.{
  ℕ, zero, suc, Bool, true, false, ◌&&◌, ◌||◌, Option, none, some, List, [], ◌∷◌, length,
  if◌then◌else◌, nat_eq, ◌==◌,
}
use model_id.Base.Text.{Text, codes, split}
use model_id.Base.Search.{split_at, contains, ends_with, trim_start_matches, trim_end_matches}

abbrev pub is_empty {ℓ} : {A : Type ℓ} → List A → Bool
is_empty [] = true
is_empty (x ∷ xs) = false

-- The loop over the parts: each is found behind the one before it.
unfoldable pub in_order : List Text → Text → Bool
unfolding split_at
in_order [] remaining = true
in_order ([] ∷ parts) remaining = in_order parts remaining
in_order ((c ∷ part) ∷ parts) remaining = elim (split_at (c ∷ part) remaining) [
  | none ↦ false
  | some (_, rest) ↦ in_order parts rest
]

-- `parts.last()`, of a list that is never empty
abbrev pub last_part : List Text → Text
last_part [] = []
last_part (p ∷ []) = p
last_part (p ∷ q ∷ ps) = last_part (q ∷ ps)

-- A pattern whose wildcards are all single.
unfoldable pub single_star : Text → Text → Bool
unfolding in_order ends_with split
single_star pattern path =
    let parts = split b'*' pattern in
    in_order parts path
    && (ends_with (codes "*") pattern
        || is_empty (last_part parts)
        || ends_with (last_part parts) path)

-- What stands under `if let Some(pos)`, with `recur` for the recursive call.
abbrev pub double_star : (Text → Bool) → Text → Text → Text → Bool
double_star recur before after path =
    if not (is_empty before || contains before path)
    then false
    else if is_empty after
    then true
    else recur after

abbrev pub glob_split : (Text → Bool) → Option (Text × Text) → Text → Text → Bool
glob_split recur none pattern path = single_star pattern path
glob_split recur (some (before, after)) pattern path =
    double_star recur (trim_end_matches b'/' before) (trim_start_matches b'/' after) path

-- The body of `glob_matches`.
unfoldable pub glob_step : (Text → Bool) → Text → Text → Bool
unfolding contains split_at single_star trim_start_matches trim_end_matches
glob_step recur pattern path =
    if not (contains (codes "*") pattern)
    then contains pattern path
    else glob_split recur (split_at (codes "**") pattern) pattern path

-- `glob_matches`, with so many calls at most
unfoldable pub glob_within : ℕ → Text → Text → Bool
unfolding glob_step
glob_within zero pattern path = false
glob_within (suc n) pattern path = glob_step (λ after. glob_within n after path) pattern path

unfoldable pub glob_matches : Text → Text → Bool
unfolding glob_within
glob_matches pattern path = glob_within (suc (length pattern)) pattern path
