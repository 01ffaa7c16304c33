-- ===== src/Platform.antt =====
-- What crates/modeld-core/src/platform.rs asks of Unix: whether two paths are on one volume, and whether
-- a file is locked. The devices and canonical paths are the operating system's, parameters.
use model_id.Base.{
  ℕ, Bool, false, Option, none, some, length, min, take, if◌then◌else◌, nat_eq, ◌==◌,
}
use model_id.Base.Text.{Text}
use model_id.Dedup.{path_text}
use model_id.Links.{both_ok}
use model_id.Workflow.{eq_ignore_ascii_case}
use model_id.Sys.{FilePath, M, pure, try, ◌>>=◌}
use model_id.Sys.Files.{metadata_len}

abbrev pub check_file_locked : FilePath → Bool
check_file_locked path = false

abbrev pub or_path : FilePath → Option FilePath → FilePath
or_path p none = p
or_path p (some q) = q

abbrev same_prefix : Text → Text → Bool
same_prefix s1 s2 =
    let n = min (min 3 (length s1)) (length s2) in eq_ignore_ascii_case (take n s1) (take n s2)

module _ (device : FilePath → ℕ) (canonicalize : FilePath → Option FilePath) where
  unfoldable pub same_volume_by_path_prefix : FilePath → FilePath → Bool
  unfolding path_text
  same_volume_by_path_prefix p1 p2 =
      same_prefix (path_text (or_path p1 (canonicalize p1)))
        (path_text (or_path p2 (canonicalize p2)))

  unfoldable pub is_same_volume : FilePath → FilePath → M Bool
  unfolding same_volume_by_path_prefix
  is_same_volume p1 p2 = do
    m1 ← try (metadata_len p1)
    m2 ← try (metadata_len p2)
    pure (if both_ok m1 m2 then device p1 == device p2 else same_volume_by_path_prefix p1 p2)
