-- ===== src/Dedup/Find.antt =====
-- `find_duplicates` and `plan_dedup` of crates/modeld-core/src/dedup.rs. What the operating system
-- reports as a file's modification time is a parameter.
use mathlib.Core.Bool.{not}
use model_id.Base.{
  ℕ, ◌≤◌, ◌≡◌, refl, ap, ◌∙◌, Bool, true, false, ◌||◌, List, [], ◌∷◌, ◌++◌, map, arith, any, length,
  ltb, leb, if◌then◌else◌, All, All-append, list_eq, nat_eq, ◌==◌,
}
use model_id.Base.Text.{Text}
use model_id.Base.Results.{Result, ok, err}
use model_id.Hash.{Blake3Hash}
use model_id.Db.{Alias}
use model_id.Db.Groups.{Group, find_duplicate_groups}
use model_id.Scanner.{is_empty, glob_matches}
use model_id.Sys.{FilePath, World, M, pure, gets, try, ◌>>=◌}
use model_id.Sys.Files.{exists, metadata_len}
use model_id.Sys.Tables.{query}
use model_id.Sys.Apart.{tried-Ends}
use model_id.Sys.Results.{Ends, Ends-pure, Ends-bind, any_end}
use model_id.Dedup.{DedupEngine, FileInfo, DuplicateGroup, DedupPlan, path_text, plan_groups}

-- `to_string_lossy().replace('\\', "/")`
abbrev pub path_norm : FilePath → Text
path_norm p = map (λ c. if c == b'\\' then b'/' else c) (path_text p)

unfoldable pub path_is_excluded : DedupEngine → FilePath → Bool
unfolding glob_matches path_text
path_is_excluded e path =
    if is_empty e.exclude_globs
    then false
    else any (λ pat. glob_matches pat (path_norm path)) e.exclude_globs

unfoldable pub path_is_included : DedupEngine → FilePath → Bool
unfolding glob_matches path_text
path_is_included e path =
    if is_empty e.include_globs
    then true
    else any (λ pat. glob_matches pat (path_norm path)) e.include_globs

abbrev pub info_list : Result FileInfo → List FileInfo
info_list (ok info) = info ∷ []
info_list (err e) = []

-- The groups, each with its files.
abbrev pub with_files : Blake3Hash → ℕ → List FileInfo → List DuplicateGroup → List DuplicateGroup
with_files hash size files rest =
    if leb 2 (length files)
    then record { hash = hash; files = files; total_size = size } ∷ rest
    else rest

-- A file that the filters let through.
abbrev pub IsAdmitted : DedupEngine → FileInfo → Type 0
IsAdmitted e f = (path_is_excluded e f.path ≡ false) × (path_is_included e f.path ≡ true)

-- A group of two files or more, large enough, of admitted files only.
abbrev pub IsGroup : DedupEngine → DuplicateGroup → Type 0
IsGroup e g = (2 ≤ length g.files) × (e.min_size_bytes ≤ g.total_size) × All (IsAdmitted e) g.files

module _ (modified : FilePath → ℕ) where
  -- `FileInfo::from_path`
  unfoldable pub from_path : FilePath → M FileInfo
  from_path path = do
    size ← metadata_len path
    pure (record { path = path; size = size; mtime = modified path })

  abbrev pub info_of : DedupEngine → FilePath → Bool → M (List FileInfo)
  info_of e path there =
      if not there || path_is_excluded e path || not (path_is_included e path)
      then pure []
      else do info ← try (from_path path); pure (info_list info)

  -- The loop over the aliases of a group.
  unfoldable pub file_infos : DedupEngine → List Alias → M (List FileInfo)
  unfolding from_path path_is_excluded path_is_included
  file_infos e [] = pure []
  file_infos e (a ∷ aliases) = do
    there ← gets (exists a.path)
    infos ← info_of e a.path there
    rest ← file_infos e aliases
    pure (infos ++ rest)

  -- The loop over the groups.
  unfoldable pub groups_of : DedupEngine → List Group → M (List DuplicateGroup)
  unfolding file_infos
  groups_of e [] = pure []
  groups_of e ((hash, size_bytes, aliases) ∷ batch) =
      if ltb size_bytes e.min_size_bytes then groups_of e batch else do
        files ← file_infos e aliases
        rest ← groups_of e batch
        pure (with_files hash size_bytes files rest)

  unfoldable pub find_duplicates : DedupEngine → M (List DuplicateGroup)
  unfolding groups_of
  find_duplicates e = do batch ← query find_duplicate_groups; groups_of e batch

  unfoldable pub plan_dedup : (Text → Blake3Hash) → DedupEngine → M DedupPlan
  unfolding find_duplicates plan_groups
  plan_dedup blake3 e = do groups ← find_duplicates e; plan_groups blake3 e 0 groups

  from_path-Ends :
      (path : FilePath) (w : World) → Ends (λ f _. f.path ≡ path) (λ _. Unit) (from_path path w)
  unfolding from_path
  from_path-Ends path w =
      Ends-bind (metadata_len path) _ w (any_end (metadata_len path) w)
        (λ size v _. Ends-pure (record { path = path; size = size; mtime = modified path }) v refl)
        (λ v _. tt)

  info_of-All :
      (e : DedupEngine) (path : FilePath) (there : Bool) (w : World)
      → Ends (λ infos _. All (IsAdmitted e) infos) (λ _. Unit) (info_of e path there w)
  unfolding from_path
  info_of-All e path there w =
      by_test (path_is_excluded e path) (path_is_included e path) there refl refl
    where
      by_test :
          (x i t : Bool)
          → path_is_excluded e path ≡ x
          → path_is_included e path ≡ i
          → Ends
              (λ infos _. All (IsAdmitted e) infos)
              (λ _. Unit {0})
              ((if not t || x || not i
                  then pure []
                  else do info ← try (from_path path); pure (info_list info))
                w)
      by_test x i false h k = Ends-pure [] w tt
      by_test true i true h k = Ends-pure [] w tt
      by_test false false true h k = Ends-pure [] w tt
      by_test false true true h k =
          Ends-bind {Bad = λ _. Unit {0}} (try (from_path path)) _ w
            (tried-Ends (from_path path) w (from_path-Ends path w))
            (λ r v (good, _). Ends-pure (info_list r) v (by_info r good)) (λ v _. tt)
        where
          by_info :
              (r : Result FileInfo)
              → ((f : FileInfo) → r ≡ ok f → f.path ≡ path)
              → All (IsAdmitted e) (info_list r)
          by_info (ok f) good = (
            (ap (path_is_excluded e) (good f refl) ∙ h, ap (path_is_included e) (good f refl) ∙ k),
            tt,
          )
          by_info (err x) good = tt

  file_infos-All :
      (e : DedupEngine) (aliases : List Alias) (w : World)
      → Ends (λ files _. All (IsAdmitted e) files) (λ _. Unit) (file_infos e aliases w)
  unfolding file_infos
  file_infos-All e [] w = Ends-pure [] w tt
  file_infos-All e (a ∷ aliases) w =
      Ends-bind (gets (exists a.path)) _ w (any_end (gets (exists a.path)) w)
        (λ there w1 _.
          Ends-bind (info_of e a.path there) _ w1 (info_of-All e a.path there w1)
            (λ infos w2 h.
              Ends-bind (file_infos e aliases) _ w2 (file_infos-All e aliases w2)
                (λ rest w3 k.
                  Ends-pure (infos ++ rest) w3 (All-append (IsAdmitted e) infos rest h k))
                (λ v _. tt))
            (λ v _. tt))
        (λ v _. tt)

  groups_of-All :
      (e : DedupEngine) (batch : List Group) (w : World)
      → Ends (λ groups _. All (IsGroup e) groups) (λ _. Unit) (groups_of e batch w)
  unfolding groups_of
  groups_of-All e [] w = Ends-pure [] w tt
  groups_of-All e ((hash, size, aliases) ∷ batch) w =
      by_size (ltb size e.min_size_bytes) refl (groups_of-All e batch)
    where
      by_count :
          (files : List FileInfo) (rest : List DuplicateGroup)
          → ltb size e.min_size_bytes ≡ false
          → All (IsAdmitted e) files
          → All (IsGroup e) rest
          → All (IsGroup e) (with_files hash size files rest)
      by_count files rest s h k = by_length (leb 2 (length files)) refl
        where
          by_length :
              (b : Bool)
              → leb 2 (length files) ≡ b
              → All (IsGroup e) (
                  if b
                  then record { hash = hash; files = files; total_size = size } ∷ rest
                  else rest)
          by_length true l = ((ground (arith, l), ground (arith, s), h), k)
          by_length false l = k

      by_size :
          (b : Bool)
          → ltb size e.min_size_bytes ≡ b
          → ((v : World)
              → Ends (λ groups _. All (IsGroup e) groups) (λ _. Unit {0}) (groups_of e batch v))
          → Ends
              (λ groups _. All (IsGroup e) groups)
              (λ _. Unit {0})
              ((if b then groups_of e batch else do
                files ← file_infos e aliases
                rest ← groups_of e batch
                pure (with_files hash size files rest))
                w)
      by_size true s rest = rest w
      by_size false s rest =
          Ends-bind (file_infos e aliases) _ w (file_infos-All e aliases w)
            (λ files v h.
              Ends-bind (groups_of e batch) _ v (rest v)
                (λ groups u k.
                  Ends-pure (with_files hash size files groups) u (by_count files groups s h k))
                (λ v _. tt))
            (λ v _. tt)

  -- If `find_duplicates` returns, each group has two files or more, at least the least size, and
  -- only files that no exclude pattern and, if there are any, some include pattern matches.
  pub find_duplicates-IsGroup :
      (e : DedupEngine) (w : World)
      → Ends (λ groups _. All (IsGroup e) groups) (λ _. Unit) (find_duplicates e w)
  unfolding find_duplicates
  find_duplicates-IsGroup e w =
      Ends-bind (query find_duplicate_groups) _ w (any_end (query find_duplicate_groups) w)
        (λ batch v _. groups_of-All e batch v) (λ v _. tt)
