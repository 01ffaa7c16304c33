-- ===== src/Base/Decimal.antt =====
-- Decimal numbers: `to_string`, `{}` of a number, and `parse::<u64>` and the like.
use mathlib.Core.Bool.{◌&&◌}
use mathlib.Core.Option.{some-injective}
use model_id.Base.{
  ℕ, zero, suc, ◌+◌, ◌-◌, ◌*◌, ◌/◌, ◌%◌, ◌^◌, ◌<◌, ◌≡◌, refl, ◌∙◌, ◌≢◌, true, false, [], ◌∷◌, ◌++◌,
  Option, none, some, arith, ltb, leb, if◌then◌else◌, All, All-append, Bool-cases, inl, inr,
}
use model_id.Base.Text.{Text, is_digit, Lacks, Solid}

-- One more digit, or `none` for a byte that is no digit and for a value from `limit` on.
abbrev step : ℕ → Option ℕ → ℕ → Option ℕ
step limit none c = none
step limit (some n) c =
    if is_digit c && ltb (n * 10 + (c - b'0')) limit then some (n * 10 + (c - b'0')) else none

scan : ℕ → Option ℕ → Text → Option ℕ
scan limit acc [] = acc
scan limit acc (c ∷ s) = scan limit (step limit acc c) s

abbrev scan_nonempty : ℕ → Text → Option ℕ
scan_nonempty limit [] = none
scan_nonempty limit (c ∷ s) = scan limit (some 0) (c ∷ s)

-- `from_str` of an unsigned type with the values below `limit`: one `+` may stand in front.
unfoldable pub parse_below : ℕ → Text → Option ℕ
unfolding scan
parse_below limit [] = none
parse_below limit (c ∷ s) =
    if leb b'+' c && leb c b'+' then scan_nonempty limit s else scan limit (some 0) (c ∷ s)

unfoldable pub parse_u64 : Text → Option ℕ
unfolding parse_below
parse_u64 = parse_below (2 ^ 64)

unfoldable pub parse_u32 : Text → Option ℕ
unfolding parse_below
parse_u32 = parse_below (2 ^ 32)

show_fuel : ℕ → ℕ → Text
show_fuel zero n = []
show_fuel (suc f) n =
    let front = show_fuel f (n / 10) in
    if ltb n 10 then (b'0' + n) ∷ [] else front ++ (b'0' + n % 10) ∷ []

-- `to_string`. One digit goes with each round, so `n + 1` rounds are enough.
unfoldable pub show : ℕ → Text
unfolding show_fuel
show n = show_fuel (suc n) n

scan-append :
    (limit : ℕ) (acc : Option ℕ) (s t : Text)
    → scan limit acc (s ++ t) ≡ scan limit (scan limit acc s) t
unfolding scan
scan-append limit acc [] t = refl
scan-append limit acc (c ∷ s) t = scan-append limit (step limit acc c) s t

scan-show_fuel : (limit f n : ℕ) → n < f → n < limit → scan limit (some 0) (show_fuel f n) ≡ some n
unfolding show_fuel scan
scan-show_fuel limit zero n h k = absurd (omega arith)
scan-show_fuel limit (suc f) n h k = ground (
  arith,
  scan-append limit (some 0) (show_fuel f (n / 10)) ((b'0' + n % 10) ∷ []),
  scan-show_fuel limit f (n / 10),
)

abbrev pub Digits : Text → Type 0
Digits = All (λ c. is_digit c ≡ true)

show_fuel-Digits : (f n : ℕ) → Digits (show_fuel f n)
unfolding show_fuel
show_fuel-Digits zero n = tt
show_fuel-Digits (suc f) n = elim (Bool-cases (ltb n 10)) [
  | inl small ↦ rw small (ground arith, tt)
  | inr large ↦ rw large (
      All-append (λ c. is_digit c ≡ true) (show_fuel f (n / 10)) _ (show_fuel-Digits f (n / 10))
        (ground arith, tt))
]

pub show-Digits : (n : ℕ) → Digits (show n)
unfolding show
show-Digits n = show_fuel-Digits (suc n) n

pub Lacks-of_Digits : (c : ℕ) (s : Text) → is_digit c ≡ false → Digits s → Lacks c s
Lacks-of_Digits c [] h d = tt
Lacks-of_Digits c (x ∷ s) h d = (λ e. ground arith, Lacks-of_Digits c s h d.1)

pub Solid-of_Digits : (s : Text) → Digits s → Solid s
Solid-of_Digits [] d = tt
Solid-of_Digits (x ∷ s) d = (ground arith, Solid-of_Digits s d.1)

show_fuel-ne-nil : (f n : ℕ) → show_fuel (suc f) n ≢ []
unfolding show_fuel
show_fuel-ne-nil f n h = elim (Bool-cases (ltb n 10)) [
  | inl small ↦ cc (rw small at h)
  | inr large ↦ append-ne-nil (show_fuel f (n / 10)) _ (rw large at h)
]
  where
    append-ne-nil : (s : Text) (c : ℕ) → s ++ c ∷ [] ≢ []
    append-ne-nil [] c e = cc
    append-ne-nil (x ∷ s) c e = cc

pub show-ne-nil : (n : ℕ) → show n ≢ []
unfolding show
show-ne-nil n = show_fuel-ne-nil n n

parse_below_of_Digits :
    (limit : ℕ) (s : Text) → s ≢ [] → Digits s → parse_below limit s ≡ scan limit (some 0) s
unfolding parse_below
parse_below_of_Digits limit [] h d = absurd (h refl)
parse_below_of_Digits limit (c ∷ s) h d = ground arith

-- What `to_string` prints of a number below the limit, `parse` reads back.
pub parse_below-show : (limit n : ℕ) → n < limit → parse_below limit (show n) ≡ some n
unfolding show
parse_below-show limit n h =
    parse_below_of_Digits limit (show n) (show-ne-nil n) (show-Digits n)
    ∙ scan-show_fuel limit (suc n) n (omega arith) h

pub show-injective : (m n : ℕ) → show m ≡ show n → m ≡ n
show-injective m n e = some-injective m n (
    cc (
      parse_below-show (suc (m + n)) m (omega arith),
      parse_below-show (suc (m + n)) n (omega arith),
    ))
