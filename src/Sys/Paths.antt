-- ===== src/Sys/Paths.antt =====
-- The functions of `std::path` that the code calls.
use mathlib.Core.List.{reverse}
use model_id.Base.{
  ◌≡◌, refl, ap, Bool, true, false, ◌&&◌, Option, none, some, [], ◌∷◌, ◌++◌, list_eq, nat_eq, ◌==◌,
}
use model_id.Base.Text.{Text, split_once}
use model_id.Sys.{FilePath}

-- `path.join(component)`
abbrev pub join : FilePath → Text → FilePath
join p c = p ++ c ∷ []

-- `path.parent()`
unfoldable pub parent : FilePath → Option FilePath
parent [] = none
parent (c ∷ []) = some []
parent (c ∷ d ∷ p) = elim (parent (d ∷ p)) [ none ↦ none | some q ↦ some (c ∷ q) ]

-- `path.file_name()`, or the empty text
unfoldable pub file_name : FilePath → Text
file_name [] = []
file_name (c ∷ []) = c
file_name (c ∷ d ∷ p) = file_name (d ∷ p)

abbrev pub stem_of : Text → Option (Text × Text) → Text
stem_of name none = name
stem_of name (some (e, [])) = name
stem_of name (some (e, c ∷ stem)) = reverse (c ∷ stem)

-- `path.file_stem()` of a name other than `..`
unfoldable pub file_stem : Text → Text
unfolding split_once
file_stem name = stem_of name (split_once b'.' (reverse name))

-- `path.with_extension(e)`
unfoldable pub with_extension : FilePath → Text → FilePath
unfolding file_stem
with_extension [] e = []
with_extension (c ∷ []) e = (file_stem c ++ b'.' ∷ e) ∷ []
with_extension (c ∷ d ∷ p) e = c ∷ with_extension (d ∷ p) e

pub file_name-join : (p : FilePath) (c : Text) → file_name (join p c) ≡ c
unfolding file_name
file_name-join [] c = refl
file_name-join (d ∷ []) c = refl
file_name-join (d ∷ e ∷ p) c = file_name-join (e ∷ p) c

pub parent-join : (p : FilePath) (c : Text) → parent (join p c) ≡ some p
unfolding parent
parent-join [] c = refl
parent-join (d ∷ []) c = refl
parent-join (d ∷ e ∷ p) c =
    ap (λ r. elim r [ none ↦ none | some q ↦ some (d ∷ q) ]) (parent-join (e ∷ p) c)

abbrev pub extension_of : Option (Text × Text) → Option Text
extension_of none = none
extension_of (some (e, [])) = none
extension_of (some (e, c ∷ stem)) = some (reverse e)

-- `path.extension()` of a name other than `..`: what stands behind the last dot, if something
-- stands in front of it
unfoldable pub extension : Text → Option Text
unfolding split_once
extension name = extension_of (split_once b'.' (reverse name))

-- `path.starts_with(base)`
unfoldable pub is_under : FilePath → FilePath → Bool
is_under [] path = true
is_under (b ∷ base) [] = false
is_under (b ∷ base) (c ∷ path) = b == c && is_under base path
