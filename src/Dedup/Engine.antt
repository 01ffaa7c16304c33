-- ===== src/Dedup/Engine.antt =====
-- How a `DedupEngine` of crates/modeld-core/src/dedup.rs is made, and the names of its strategies. Its
-- database and what links it can make are handed to the operations that ask for them.
use model_id.Base.{ℕ, none, some, List, [], ◌∷◌, any, if◌then◌else◌}
use model_id.Base.Text.{Text, codes}
use model_id.Base.Results.{Result, ok, err, parse_error}
use model_id.Workflow.{eq_ignore_ascii_case}
use model_id.Dedup.{DedupEngine, DedupStrategy, hardlink, symlink, copy_to_cas, virtual_alias}
use model_id.Sys.{FilePath}

abbrev pub new : FilePath → DedupEngine
new store_path = record {
  store_path = store_path;
  strategy = none;
  protected_paths = [];
  min_size_bytes = 0;
  include_globs = [];
  exclude_globs = [];
  pin_paths = [];
}

abbrev with_strategy : DedupStrategy → DedupEngine → DedupEngine
with_strategy strategy self = record self { strategy = some strategy }

abbrev pub with_protected_paths : List FilePath → DedupEngine → DedupEngine
with_protected_paths paths self = record self { protected_paths = paths }

abbrev pub with_min_size : ℕ → DedupEngine → DedupEngine
with_min_size bytes self = record self { min_size_bytes = bytes }

abbrev with_include_globs : List Text → DedupEngine → DedupEngine
with_include_globs globs self = record self { include_globs = globs }

abbrev pub with_exclude_globs : List Text → DedupEngine → DedupEngine
with_exclude_globs globs self = record self { exclude_globs = globs }

abbrev with_pin_paths : List FilePath → DedupEngine → DedupEngine
with_pin_paths paths self = record self { pin_paths = paths }

abbrev from_str : Text → Result DedupStrategy
from_str s =
    if any (eq_ignore_ascii_case s) (codes "hardlink" ∷ codes "hard-link" ∷ [])
    then ok hardlink
    else if any (eq_ignore_ascii_case s) (codes "symlink" ∷ codes "sym-link" ∷ [])
    then ok symlink
    else if any (eq_ignore_ascii_case s)
        (codes "copy-to-cas" ∷ codes "copy_to_cas" ∷ codes "copytocas" ∷ [])
    then ok copy_to_cas
    else if any (eq_ignore_ascii_case s)
        (codes "virtual-alias" ∷ codes "virtual_alias" ∷ codes "virtualalias" ∷ [])
    then ok virtual_alias
    else err parse_error
