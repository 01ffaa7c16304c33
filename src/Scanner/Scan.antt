-- ===== src/Scanner/Scan.antt =====
-- `Scanner` of crates/modeld-core/src/scanner.rs on Unix. The walk is the walkdir package's, a parameter:
-- it is given the filter with the set that the filter keeps, and gives the entries with what the
-- system says of them. The second phase is run in the order of the files; the progress callback
-- changes nothing.
use mathlib.Core.Bool.{not}
use model_id.Base.{
  ℕ, ◌+◌, ◌%◌, ◌^◌, Bool, true, false, ◌&&◌, ◌||◌, Option, none, some, List, [], ◌∷◌, ◌++◌, any,
  if◌then◌else◌, list_eq, nat_eq, ◌==◌,
}
use model_id.Base.Text.{Text, codes, starts_with}
use model_id.Base.Dict.{Dict, lookup}
use model_id.Base.Results.{Result, ok, err}
use model_id.Hash.{Blake3Hash}
use model_id.Hash.Reading.{hash_file}
use model_id.Db.PathIndex.{FileIndexEntry}
use model_id.Ingest.{ScannedFile}
use model_id.Dedup.Find.{path_norm}
use model_id.Workflow.{eq_ignore_ascii_case}
use model_id.Scanner.{glob_matches}
use model_id.Sys.{FilePath, M, pure, try, ◌>>=◌}
use model_id.Sys.Files.{is_under, extension, file_name}

pub record ScanOptions : Type 0 where
  pub incremental : Bool
  pub full : Bool
  pub exclude_globs : List Text
  pub follow_symlinks : Bool

abbrev pub default_options : ScanOptions
default_options = record {
  incremental = true;
  full = false;
  exclude_globs = [];
  follow_symlinks = false;
}

pub record FileScanner : Type 0 where
  pub extensions : List Text
  pub excluded_dirs : List FilePath
  pub preindexed : Dict FilePath FileIndexEntry
  pub scan_options : ScanOptions

abbrev pub model_extensions : List Text
model_extensions =
    codes "safetensors" ∷ codes "gguf" ∷ codes "ckpt" ∷ codes "pth" ∷ codes "pt" ∷ codes "bin" ∷ []

abbrev pub new : FileScanner
new = record {
  extensions = model_extensions;
  excluded_dirs = [];
  preindexed = [];
  scan_options = default_options;
}

abbrev pub with_extensions : List Text → FileScanner → FileScanner
with_extensions extensions s = record s { extensions = extensions }

abbrev pub with_excluded_dirs : List FilePath → FileScanner → FileScanner
with_excluded_dirs dirs s = record s { excluded_dirs = dirs }

abbrev pub with_preindexed : Dict FilePath FileIndexEntry → FileScanner → FileScanner
with_preindexed cache s = record s { preindexed = cache }

abbrev pub with_scan_options : ScanOptions → FileScanner → FileScanner
with_scan_options opts s = record s { scan_options = opts }

pub record Metadata : Type 0 where
  pub len : ℕ
  -- seconds since 1970, where the platform has them
  pub modified : Option ℕ
  pub ino : ℕ
  pub dev : ℕ

-- An entry of the walk, with what the calls for its metadata give.
pub record Entry : Type 0 where
  pub path : FilePath
  pub is_dir : Bool
  pub metadata : Option Metadata

-- A directory by its device and its inode.
pub record DirId : Type 0 where
  pub dev : ℕ
  pub ino : ℕ

abbrev pub same_dir : DirId → DirId → Bool
same_dir a b = a.dev == b.dev && a.ino == b.ino

-- `get_dir_id`
abbrev pub get_dir_id : Metadata → DirId
get_dir_id meta = record { dev = meta.dev; ino = meta.ino }

abbrev pub is_noise : Text → Bool
is_noise name =
    name == codes "node_modules"
    || name == codes "venv"
    || name == codes "__pycache__"
    || (starts_with (codes ".") name
        && not (starts_with (codes ".tmp") name)
        && not (name == codes ".")
        && not (name == codes ".."))

module _ (s : FileScanner) where
  unfoldable pub is_excluded_with_opts : FilePath → ScanOptions → Bool
  unfolding is_under starts_with glob_matches
  is_excluded_with_opts path opts =
      any (λ excl. is_under excl path) s.excluded_dirs
      || any is_noise path
      || any (λ pattern. glob_matches pattern (path_norm path)) opts.exclude_globs

  abbrev pub is_excluded : FilePath → Bool
  is_excluded path = is_excluded_with_opts path s.scan_options

  unfoldable pub matches_extension : FilePath → Bool
  unfolding extension file_name
  matches_extension path = elim (extension (file_name path)) [
    | none ↦ false
    | some ext ↦ any (λ a. eq_ignore_ascii_case a ext) s.extensions
  ]

  -- The filter: a directory that was visited is left out, a new one is noted.
  abbrev pub visit : List DirId → FilePath → Option Metadata → Bool × List DirId
  visit visited path none = (not (is_excluded path), visited)
  visit visited path (some meta) =
      if any (same_dir (get_dir_id meta)) visited
      then (false, visited)
      else (not (is_excluded path), get_dir_id meta ∷ visited)

  unfoldable pub filter_entry : List DirId → Entry → Bool × List DirId
  unfolding is_excluded_with_opts
  filter_entry visited e =
      if e.is_dir then visit visited e.path e.metadata else (not (is_excluded e.path), visited)

-- A file to be hashed.
pub record Found : Type 0 where
  pub path : FilePath
  pub size : ℕ
  pub mtime : ℕ
  pub inode : ℕ
  pub device_id : ℕ

abbrev pub or_zero : Option ℕ → ℕ
or_zero none = 0
or_zero (some t) = t

-- What the loop of the first phase adds for an entry that could be read.
abbrev pub found_at : FilePath → Option Metadata → List Found
found_at path none = []
found_at path (some meta) =
    record {
      path = path;
      size = meta.len;
      mtime = or_zero meta.modified;
      inode = meta.ino;
      device_id = meta.dev;
    }
    ∷ []

abbrev pub matched : Bool → Entry → List Found
matched true e = found_at e.path e.metadata
matched false e = []

abbrev pub of_entry : FileScanner → Option Entry → List Found
of_entry s none = []
of_entry s (some e) = if e.is_dir then [] else matched (matches_extension s e.path) e

unfoldable pub to_process : FileScanner → List (Option Entry) → List Found
unfolding matches_extension
to_process s [] = []
to_process s (e ∷ es) = of_entry s e ++ to_process s es

-- The three comparisons with the cache.
abbrev pub is_current : Found → FileIndexEntry → Bool
is_current f entry =
    entry.size == f.size
    && (f.mtime == 0 || entry.mtime == 0 || entry.mtime == f.mtime)
    && (f.inode == 0
        || entry.inode == 0
        || (entry.inode == f.inode && entry.device_id == f.device_id))

abbrev pub scanned : Found → Blake3Hash → Bool → ScannedFile
scanned f hash from_cache = record {
  path = f.path;
  size = f.size;
  hash = hash;
  from_cache = from_cache;
  mtime = f.mtime;
  inode = f.inode;
  device_id = f.device_id;
}

abbrev pub cached : FileScanner → Found → Option Blake3Hash
cached s f = elim (lookup f.path s.preindexed) [
  | none ↦ none
  | some entry ↦ if is_current f entry then some entry.hash else none
]

abbrev pub use_incremental : FileScanner → Bool
use_incremental s = s.scan_options.incremental && not s.scan_options.full

abbrev pub hashed : Found → Result Blake3Hash → List ScannedFile
hashed f (ok hash) = scanned f hash false ∷ []
hashed f (err e) = []

module _ (blake3 : Text → Blake3Hash) where
  abbrev pub hash_found : Found → M (List ScannedFile)
  hash_found f = do r ← try (hash_file blake3 f.path); pure (hashed f r)

  abbrev pub by_cache : Found → Option Blake3Hash → M (List ScannedFile)
  by_cache f (some hash) = pure (scanned f hash true ∷ [])
  by_cache f none = hash_found f

  abbrev pub scan_file : FileScanner → Found → M (List ScannedFile)
  scan_file s f = if use_incremental s then by_cache f (cached s f) else hash_found f

  unfoldable pub scan_files : FileScanner → List Found → M (List ScannedFile)
  unfolding hash_file lookup
  scan_files s [] = pure []
  scan_files s (f ∷ fs) = do here ← scan_file s f; rest ← scan_files s fs; pure (here ++ rest)

  module _ (walk : (List DirId → Entry → Bool × List DirId) → List (Option Entry)) where
    unfoldable pub scan : FileScanner → M (List ScannedFile)
    unfolding filter_entry to_process scan_files
    scan s = scan_files s (to_process s (walk (filter_entry s)))

abbrev pub count_metadata : Option Metadata → ℕ × ℕ → ℕ × ℕ
count_metadata none (n, size) = (n, size)
count_metadata (some meta) (n, size) = (n + 1, (size + meta.len) % 2 ^ 64)

abbrev pub count_entry : FileScanner → Option Entry → ℕ × ℕ → ℕ × ℕ
count_entry s none c = c
count_entry s (some e) c =
    if e.is_dir then c else if matches_extension s e.path then count_metadata e.metadata c else c

unfoldable pub count_entries : FileScanner → List (Option Entry) → ℕ × ℕ → ℕ × ℕ
unfolding matches_extension
count_entries s [] c = c
count_entries s (e ∷ es) c = count_entries s es (count_entry s e c)

-- The walk of `count_files` notes no directory.
abbrev pub plain_filter : FileScanner → List DirId → Entry → Bool × List DirId
plain_filter s visited e = (not (is_excluded s e.path), visited)

unfoldable pub count_files :
    ((List DirId → Entry → Bool × List DirId) → List (Option Entry)) → FileScanner → ℕ × ℕ
unfolding count_entries is_excluded_with_opts
count_files walk s = count_entries s (walk (plain_filter s)) (0, 0)
