-- ===== src/Scanner/Selected.antt =====
-- Which files a scan of crates/modeld-core/src/scanner.rs hands to the hashing.
use model_id.Base.{
  ◌≡◌, refl, Bool, true, false, not, Option, none, some, List, any, All, list_eq, nat_eq,
}
use model_id.Base.Text.{Text}
use model_id.Dedup.Find.{path_norm}
use model_id.Scanner.{glob_matches}
use model_id.Sys.Returns.{Returns}
use model_id.Sys.Files.{is_under}
use model_id.Scanner.Scan.{FileScanner, Found, Entry, DirId, is_noise, matches_extension}

-- The documented behaviour of the walk: it gives only entries that the filter let through.
abbrev pub IsFiltered : ((List DirId → Entry → Bool × List DirId) → List (Option Entry)) → Type 0
IsFiltered walk =
    (filter : List DirId → Entry → Bool × List DirId) (p : Entry → Bool)
    → ((visited : List DirId) (e : Entry) → (filter visited e).0 ≡ true → p e ≡ true)
    → All (λ (o : Option Entry). elim o [ none ↦ true | some e ↦ p e ] ≡ true) (walk filter)

-- Outside the excluded directories and those of noise, matched by no exclude pattern, and with an
-- extension of models.
abbrev pub IsSelected : FileScanner → Found → Type 0
IsSelected s f =
    (any (λ excl. is_under excl f.path) s.excluded_dirs ≡ false)
    × (any is_noise f.path ≡ false)
    × (any (λ pattern. glob_matches pattern (path_norm f.path)) s.scan_options.exclude_globs
        ≡ false)
    × (matches_extension s f.path ≡ true)

module _ (s : FileScanner) where
  not_excluded : (b : Bool) → not b ≡ true → b ≡ false
  not_excluded true e = cc
  not_excluded false e = refl
