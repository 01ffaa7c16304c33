-- ===== src/Dedup.antt =====
-- crates/modeld-core/src/dedup.rs: the duplicate groups, the choice of the file that is kept, and
-- the plan with its savings. The digest is the blake3 package's and the modification times are the
-- operating system's, both parameters. Only Linking,
-- Execute, Run and Recover write files.
pub mod Engine
pub mod Select
pub mod Find
pub mod Pinned
pub mod Kept
pub mod Savings
pub mod Linking
pub mod Execute
pub mod Linked
pub mod Recover
pub mod Run
pub mod Logged
pub mod Recovered
pub mod Staged
pub mod Preserved
pub mod Untouched
mod Tests
use mathlib.Core.Bool.{not}
use model_id.Base.{
  ℕ, zero, suc, ◌+◌, ◌*◌, ◌%◌, ◌^◌, Bool, true, false, ◌&&◌, Option, none, some, List, [], ◌∷◌,
  ◌++◌, map, any, find, select, length, ltb, leb, if◌then◌else◌, list_eq, nat_eq, ◌==◌,
}
use model_id.Base.Text.{Text, codes}
use model_id.Base.Dict.{Dict, lookup, insert, erase}
use model_id.Base.Lexical.{text_leb}
use model_id.Base.Results.{Result, ok, err, panic}
use model_id.Hash.{Blake3Hash, as_hex}
use model_id.Hash.Reading.{hash_file}
use model_id.Db.{Database, Model, Alias}
use model_id.Governance.{is_pinned}
use model_id.Scanner.{is_empty, glob_matches}
use model_id.Sys.{FilePath, World, M, pure, throw, gets, try, ◌>>=◌, ◌>>◌}
use model_id.Sys.Files.{join, exists, is_under, metadata_len}
use model_id.Sys.Tables.{query}

pub data DedupStrategy : Type 0 where
  hardlink symlink copy_to_cas virtual_alias : DedupStrategy

pub data RiskLevel : Type 0 where
  low medium high : RiskLevel

abbrev pub compute_risk_level : DedupStrategy → RiskLevel
compute_risk_level virtual_alias = low
compute_risk_level copy_to_cas = low
compute_risk_level hardlink = medium
compute_risk_level symlink = high

pub record FileInfo : Type 0 where
  pub path : FilePath
  pub size : ℕ
  pub mtime : ℕ

pub record DuplicateGroup : Type 0 where
  pub hash : Blake3Hash
  pub files : List FileInfo
  pub total_size : ℕ

pub record CanonicalSelection : Type 0 where
  pub canonical : FilePath
  pub duplicates : List FilePath
  pub reason : Text

pub record DedupGroupPlan : Type 0 where
  pub hash : Text
  pub canonical : FilePath
  pub canonical_reason : Text
  pub to_replace : List FilePath
  pub strategy : DedupStrategy
  pub reversible : Bool
  pub risk_level : RiskLevel
  pub estimated_savings : ℕ

pub record DedupPlan : Type 0 where
  pub groups : List DedupGroupPlan
  pub total_savings_bytes : ℕ

pub record DedupEngine : Type 0 where
  pub store_path : FilePath
  pub strategy : Option DedupStrategy
  pub protected_paths : List FilePath
  pub min_size_bytes : ℕ
  pub include_globs : List Text
  pub exclude_globs : List Text
  pub pin_paths : List FilePath

-- The path as a text, its components with a separator between them.
unfoldable pub path_text : FilePath → Text
path_text [] = []
path_text (c ∷ []) = c
path_text (c ∷ d ∷ p) = c ++ b'/' ∷ path_text (d ∷ p)

-- The order of the keys: modification time, then the shorter path, then the earlier text.
unfoldable pub key_leb : FileInfo → FileInfo → Bool
unfolding path_text text_leb
key_leb f g =
    if f.mtime == g.mtime
    then (if length (path_text f.path) == length (path_text g.path)
        then text_leb (path_text g.path) (path_text f.path)
        else ltb (length (path_text g.path)) (length (path_text f.path)))
    else ltb f.mtime g.mtime

-- `max_by_key`, from the first file on: the later of two files with one key is taken.
unfoldable pub newest_of : FileInfo → List FileInfo → FileInfo
unfolding key_leb
newest_of best [] = best
newest_of best (f ∷ fs) = newest_of (if key_leb best f then f else best) fs

abbrev pub choose : List FileInfo → Text → FileInfo → CanonicalSelection
choose files reason file = record {
  canonical = file.path;
  duplicates =
      map (λ (f : FileInfo). f.path) (select (λ (f : FileInfo). not (f.path == file.path)) files);
  reason = reason;
}

abbrev pub is_flagged : DedupEngine → FileInfo → Bool
is_flagged e f = any (λ p. p == f.path) e.pin_paths

abbrev pub is_in_cas : DedupEngine → FileInfo → Bool
is_in_cas e f = is_under (join e.store_path (codes "cas")) f.path

abbrev pub is_protected : DedupEngine → FileInfo → Bool
is_protected e f = any (λ p. is_under p f.path) e.protected_paths

abbrev same_mtime : FileInfo → FileInfo → Bool
same_mtime g f = f.mtime == g.mtime

abbrev same_length : FileInfo → FileInfo → Bool
same_length g f = length (path_text f.path) == length (path_text g.path)

abbrev pub newest_reason : List FileInfo → FileInfo → Text
newest_reason files c =
    if ltb 1 (length (select (same_mtime c) files))
    then (if ltb 1 (length (select (same_length c) files))
        then codes "Alphabetically first (deterministic)"
        else codes "Shortest path (simpler reference)")
    else codes "Most recently modified (likely current)"

-- Priorities 2 to 6, for the files `f ∷ fs`.
abbrev pub by_place :
    Option FileInfo → Option FileInfo → FileInfo → List FileInfo → CanonicalSelection
by_place (some c) _ f fs = choose (f ∷ fs) (codes "Already in CAS") c
by_place none (some c) f fs = choose (f ∷ fs) (codes "In protected directory") c
by_place none none f fs = let c = newest_of f fs in choose (f ∷ fs) (newest_reason (f ∷ fs) c) c

abbrev pub select_unpinned : DedupEngine → FileInfo → List FileInfo → CanonicalSelection
select_unpinned e f fs =
    by_place (find (is_in_cas e) (f ∷ fs)) (find (is_protected e) (f ∷ fs)) f fs

abbrev pub or_false : Result Bool → Bool
or_false (ok b) = b
or_false (err e) = false

abbrev pub pinned_if_hashed : Result Blake3Hash → M Bool
pinned_if_hashed (err e) = pure false
pinned_if_hashed (ok hash) = do r ← try (is_pinned hash); pure (or_false r)

module _ (blake3 : Text → Blake3Hash) where
  -- The loop of priority 1.
  unfoldable pub first_pinned : List FileInfo → M (Option FileInfo)
  unfolding hash_file is_pinned
  first_pinned [] = pure none
  first_pinned (f ∷ fs) = do
    hash ← try (hash_file blake3 f.path)
    pinned ← pinned_if_hashed hash
    if pinned then pure (some f) else first_pinned fs

  abbrev pub unless_pinned :
      DedupEngine → FileInfo → List FileInfo → Option FileInfo → CanonicalSelection
  unless_pinned e f fs (some c) = choose (f ∷ fs) (codes "Pinned file (governance)") c
  unless_pinned e f fs none = select_unpinned e f fs

  abbrev pub unless_flagged :
      DedupEngine → FileInfo → List FileInfo → Option FileInfo → M CanonicalSelection
  unless_flagged e f fs (some c) =
      pure (choose (f ∷ fs) (codes "Explicitly pinned via --pin flag") c)
  unless_flagged e f fs none = do pinned ← first_pinned (f ∷ fs); pure (unless_pinned e f fs pinned)

  unfoldable pub select_canonical : DedupEngine → List FileInfo → M CanonicalSelection
  unfolding first_pinned newest_of is_under
  select_canonical e [] = throw panic
  select_canonical e (f ∷ fs) =
      unless_flagged e f fs (if is_empty e.pin_paths then none else find (is_flagged e) (f ∷ fs))

  abbrev pub u64 : ℕ → ℕ
  u64 n = n % 2 ^ 64

  -- `effective_strategy`
  abbrev pub effective_strategy : DedupEngine → DedupStrategy
  effective_strategy e = elim e.strategy [ none ↦ hardlink | some s ↦ s ]

  abbrev pub is_reversible : DedupStrategy → Bool
  is_reversible hardlink = true
  is_reversible symlink = true
  is_reversible copy_to_cas = false
  is_reversible virtual_alias = false

  abbrev pub group_plan : DedupEngine → DuplicateGroup → CanonicalSelection → ℕ → DedupGroupPlan
  group_plan e group selection estimated_savings = record {
    hash = as_hex group.hash;
    canonical = selection.canonical;
    canonical_reason = selection.reason;
    to_replace = selection.duplicates;
    strategy = effective_strategy e;
    reversible = is_reversible (effective_strategy e);
    risk_level = compute_risk_level (effective_strategy e);
    estimated_savings = estimated_savings;
  }

  abbrev pub estimate : DuplicateGroup → CanonicalSelection → ℕ
  estimate group selection = u64 (group.total_size * length selection.duplicates)

  -- The loop of `plan_dedup`, with the savings so far.
  unfoldable pub plan_groups : DedupEngine → ℕ → List DuplicateGroup → M DedupPlan
  unfolding select_canonical
  plan_groups e total [] = pure (record { groups = []; total_savings_bytes = total })
  plan_groups e total (group ∷ groups) = do
    selection ← select_canonical e group.files
    rest ← plan_groups e (u64 (total + estimate group selection)) groups
    pure (record rest {
      groups = group_plan e group selection (estimate group selection) ∷ rest.groups;
    })

-- `len() as u64 - 1`
abbrev pub pred_u64 : ℕ → ℕ
pred_u64 zero = 18446744073709551615
pred_u64 (suc n) = n

-- The sum of `calculate_savings`, from what is summed so far.
unfoldable pub savings_from : ℕ → List DuplicateGroup → ℕ
savings_from total [] = total
savings_from total (g ∷ groups) =
    savings_from ((total + g.total_size * pred_u64 (length g.files) % 2 ^ 64) % 2 ^ 64) groups

unfoldable pub calculate_savings : List DuplicateGroup → ℕ
unfolding savings_from
calculate_savings groups = savings_from 0 groups
