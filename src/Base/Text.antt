-- ===== src/Base/Text.antt =====
-- A Rust `String` or `&str` is the list of its bytes. The standard library's functions on it.
use Prim.Native.Char.{code}
use Prim.Native.String.{String}
use model_id.Base.{
  ℕ, ◌≡◌, refl, ◌≢◌, Bool, true, false, ◌&&◌, ◌||◌, List, [], ◌∷◌, ◌++◌, Option, none, some, arith,
  leb, if◌then◌else◌, All, nat_eq, ◌==◌, ==_refl,
}

abbrev pub Text : Type 0
Text = List ℕ

abbrev pub codes : String → Text
codes String.[] = []
codes (String.◌∷◌ c s) = code c ∷ codes s

-- `char::is_whitespace` on ASCII
abbrev pub is_whitespace : ℕ → Bool
is_whitespace c = (leb 9 c && leb c 13) || leb 32 c && leb c 32

unfoldable pub trim_start : Text → Text
trim_start [] = []
trim_start (c ∷ s) = let rest = trim_start s in if is_whitespace c then rest else c ∷ s

abbrev pub keep_if_any : ℕ → Text → Text
keep_if_any c [] = if is_whitespace c then [] else c ∷ []
keep_if_any c (x ∷ s) = c ∷ x ∷ s

unfoldable pub trim_end : Text → Text
trim_end [] = []
trim_end (c ∷ s) = keep_if_any c (trim_end s)

unfoldable pub trim : Text → Text
unfolding trim_start trim_end
trim s = trim_end (trim_start s)

unfoldable pub strip_prefix : Text → Text → Option Text
strip_prefix [] s = some s
strip_prefix (p ∷ ps) [] = none
strip_prefix (p ∷ ps) (c ∷ s) = let rest = strip_prefix ps s in if p == c then rest else none

unfoldable pub starts_with : Text → Text → Bool
starts_with [] s = true
starts_with (p ∷ ps) [] = false
starts_with (p ∷ ps) (c ∷ s) = p == c && starts_with ps s

-- `split(c).next()`: what stands before the first `c`, or all of it
unfoldable pub before : ℕ → Text → Text
before c [] = []
before c (x ∷ s) = if x == c then [] else x ∷ before c s

abbrev pub onto_first : ℕ → Option (Text × Text) → Option (Text × Text)
onto_first x none = none
onto_first x (some (a, b)) = some (x ∷ a, b)

-- `split_once(c)`
unfoldable pub split_once : ℕ → Text → Option (Text × Text)
split_once c [] = none
split_once c (x ∷ s) = if x == c then some ([], s) else onto_first x (split_once c s)

abbrev pub onto_head : ℕ → List Text → List Text
onto_head x [] = (x ∷ []) ∷ []
onto_head x (s ∷ r) = (x ∷ s) ∷ r

-- `split(c).collect()`
unfoldable pub split : ℕ → Text → List Text
split c [] = [] ∷ []
split c (x ∷ s) = if x == c then [] ∷ split c s else onto_head x (split c s)

abbrev pub is_digit : ℕ → Bool
is_digit c = leb b'0' c && leb c b'9'

-- A text in which the byte `c` does not occur.
abbrev pub Lacks : ℕ → Text → Type 0
Lacks c = All (λ x. x ≢ c)

module _ (c : ℕ) where
  pub before_lem : (s t : Text) → Lacks c s → before c (s ++ c ∷ t) ≡ s
  unfolding before
  before_lem [] t h = ground (arith, ==_refl c)
  before_lem (x ∷ s) t h = ground (arith, before_lem s t h.1)

  pub before_of_Lacks : (s : Text) → Lacks c s → before c s ≡ s
  unfolding before
  before_of_Lacks [] h = refl
  before_of_Lacks (x ∷ s) h = ground (arith, before_of_Lacks s h.1)

  pub split_once_lem : (s t : Text) → Lacks c s → split_once c (s ++ c ∷ t) ≡ some (s, t)
  unfolding split_once
  split_once_lem [] t h = ground (arith, ==_refl c)
  split_once_lem (x ∷ s) t h = ground (arith, split_once_lem s t h.1)

  pub split_once_of_Lacks : (s : Text) → Lacks c s → split_once c s ≡ none
  unfolding split_once
  split_once_of_Lacks [] h = refl
  split_once_of_Lacks (x ∷ s) h = ground (arith, split_once_of_Lacks s h.1)

  pub split_of_Lacks : (s : Text) → Lacks c s → split c s ≡ s ∷ []
  unfolding split
  split_of_Lacks [] h = refl
  split_of_Lacks (x ∷ s) h = ground (arith, split_of_Lacks s h.1)

  pub split_lem : (s t : Text) → Lacks c s → split c (s ++ c ∷ t) ≡ s ∷ split c t
  unfolding split
  split_lem [] t h = ground (arith, ==_refl c)
  split_lem (x ∷ s) t h = ground (arith, split_lem s t h.1)

pub strip_prefix-append : (p s : Text) → strip_prefix p (p ++ s) ≡ some s
unfolding strip_prefix
strip_prefix-append [] s = refl
strip_prefix-append (x ∷ p) s = ground (arith, strip_prefix-append p s, ==_refl x)

-- Nothing is trimmed from a text without white space.
abbrev pub Solid : Text → Type 0
Solid = All (λ c. is_whitespace c ≡ false)

pub trim_start_of_Solid : (s : Text) → Solid s → trim_start s ≡ s
unfolding trim_start
trim_start_of_Solid [] h = refl
trim_start_of_Solid (c ∷ s) h = rw h.0

trim_end_of_Solid : (s : Text) → Solid s → trim_end s ≡ s
unfolding trim_end
trim_end_of_Solid [] h = refl
trim_end_of_Solid (c ∷ []) h = rw h.0
trim_end_of_Solid (c ∷ d ∷ s) h = rw (trim_end_of_Solid (d ∷ s) h.1)

pub trim_of_Solid : (s : Text) → Solid s → trim s ≡ s
unfolding trim
trim_of_Solid s h = rw (trim_start_of_Solid s h) (trim_end_of_Solid s h)
