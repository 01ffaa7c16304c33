-- ===== src/Base/Search.antt =====
-- The methods of `str` that search for a text.
use mathlib.Core.List.{reverse, append_assoc}
use model_id.Base.{
  ℕ, ◌≤◌, ◌≡◌, refl, sym, ap, ◌∙◌, Bool, true, false, Option, none, some, [], ◌∷◌, ◌++◌, arith,
  length, length-append, if◌then◌else◌, nat_eq, ◌==◌,
}
use model_id.Base.Text.{Text, onto_first, strip_prefix, strip_prefix-append, starts_with}

abbrev pub first_of : Option Text → Option (Text × Text) → Option (Text × Text)
first_of none other = other
first_of (some rest) other = some ([], rest)

-- What stands before and behind the first place where `p` occurs: `find(p)` and the two slices.
unfoldable pub split_at : Text → Text → Option (Text × Text)
unfolding strip_prefix
split_at p [] = first_of (strip_prefix p []) none
split_at p (c ∷ s) = first_of (strip_prefix p (c ∷ s)) (onto_first c (split_at p s))

abbrev found : Option (Text × Text) → Bool
found none = false
found (some _) = true

-- `s.contains(p)`
unfoldable pub contains : Text → Text → Bool
unfolding split_at
contains p s = found (split_at p s)

-- `s.ends_with(p)`
unfoldable pub ends_with : Text → Text → Bool
unfolding starts_with
ends_with p s = starts_with (reverse p) (reverse s)

-- `trim_start_matches(c)`
unfoldable pub trim_start_matches : ℕ → Text → Text
trim_start_matches c [] = []
trim_start_matches c (x ∷ s) = let rest = trim_start_matches c s in if x == c then rest else x ∷ s

abbrev pub keep_unless : ℕ → ℕ → Text → Text
keep_unless c x [] = if x == c then [] else x ∷ []
keep_unless c x (y ∷ s) = x ∷ y ∷ s

-- `trim_end_matches(c)`
unfoldable pub trim_end_matches : ℕ → Text → Text
trim_end_matches c [] = []
trim_end_matches c (x ∷ s) = keep_unless c x (trim_end_matches c s)

pub length-trim_start_matches : (c : ℕ) (s : Text) → length (trim_start_matches c s) ≤ length s
unfolding trim_start_matches
length-trim_start_matches c [] = omega arith
length-trim_start_matches c (x ∷ s) = ground (arith, length-trim_start_matches c s)

strip_prefix-exact : (p s r : Text) → strip_prefix p s ≡ some r → s ≡ p ++ r
unfolding strip_prefix
strip_prefix-exact [] s r e = cc
strip_prefix-exact (x ∷ p) [] r e = cc
strip_prefix-exact (x ∷ p) (c ∷ s) r e = ground (arith, strip_prefix-exact p s r, e)

abbrev hit : Text → Text → Option (Text × Text)
hit a r = some (a, r)

of_front : (t a r : Text) → hit [] t ≡ hit a r → ([] ≡ a) × (t ≡ r)
of_front t a r e = (
  ap (λ (o : Option (Text × Text)). elim o [ none ↦ [] | some (x, _) ↦ x ]) e,
  ap (λ (o : Option (Text × Text)). elim o [ none ↦ [] | some (_, y) ↦ y ]) e,
)

of_onto :
    (c : ℕ) (o : Option (Text × Text)) (a r : Text)
    → onto_first c o ≡ hit a r
    → (b : Text) × (a ≡ c ∷ b) × (o ≡ hit b r)
of_onto c none a r e = absurd (clash e)
  where
    clash : none ≡ hit a r → ⊥
    clash k = cc
of_onto c (some (b, t)) a r e = (
  b,
  ap (λ (o : Option (Text × Text)). elim o [ none ↦ c ∷ b | some (x, _) ↦ x ]) (sym e),
  ap (λ (o : Option (Text × Text)). some (b, elim o [ none ↦ t | some (_, y) ↦ y ])) e,
)

front-exact :
    (p s t a r : Text) → strip_prefix p s ≡ some t → hit [] t ≡ hit a r → s ≡ a ++ (p ++ r)
front-exact p s t a r h k =
    let (e, f) = of_front t a r k in
    strip_prefix-exact p s t h ∙ ap (λ x. p ++ x) f ∙ ap (λ x. x ++ (p ++ r)) e

-- What `split_at` finds is there.
pub split_at-exact : (p s a r : Text) → split_at p s ≡ some (a, r) → s ≡ a ++ (p ++ r)
unfolding split_at
split_at-exact p [] a r e = by_prefix (strip_prefix p []) refl e
  where
    by_prefix :
        (o : Option Text) → strip_prefix p [] ≡ o → first_of o none ≡ hit a r → [] ≡ a ++ (p ++ r)
    by_prefix none h k = cc
    by_prefix (some t) h k = front-exact p [] t a r h k
split_at-exact p (c ∷ s) a r e = by_prefix (strip_prefix p (c ∷ s)) refl e (split_at-exact p s)
  where
    by_prefix :
        (o : Option Text)
        → strip_prefix p (c ∷ s) ≡ o
        → first_of o (onto_first c (split_at p s)) ≡ hit a r
        → ((b q : Text) → split_at p s ≡ some (b, q) → s ≡ b ++ (p ++ q))
        → c ∷ s ≡ a ++ (p ++ r)
    by_prefix none h k rest =
        let (b, e, f) = of_onto c (split_at p s) a r k in
        ap (λ x. c ∷ x) (rest b r f) ∙ ap (λ x. x ++ (p ++ r)) (sym e)
    by_prefix (some t) h k rest = front-exact p (c ∷ s) t a r h k

-- Of two ends of one text the shorter is an end of the longer.
suffixes : (a b c d : Text) → a ++ b ≡ c ++ d → length d ≤ length b → (x : Text) × (b ≡ x ++ d)
suffixes [] b c d e h = (c, e)
suffixes (y ∷ a) b [] d e h = absurd (omega (arith, h, ap length (sym e), length-append a b))
suffixes (y ∷ a) b (z ∷ c) d e h = suffixes a b c d (ap tail_of e) h
  where
    tail_of : Text → Text
    tail_of [] = []
    tail_of (x ∷ s) = s

split_at-front : (p s t : Text) → strip_prefix p s ≡ some t → split_at p s ≡ some ([], t)
unfolding split_at
split_at-front p [] t e = rw e refl
split_at-front p (c ∷ s) t e = rw e refl

-- Where `p` stands, `split_at` finds it there or earlier.
pub split_at-finds :
    (p u r : Text) → (a : Text) × (x : Text) × (split_at p (u ++ (p ++ r)) ≡ some (a, x ++ r))
unfolding split_at
split_at-finds p [] r = ([], [], split_at-front p (p ++ r) r (strip_prefix-append p r))
split_at-finds p (c ∷ u) r =
    by_prefix (strip_prefix p (c ∷ (u ++ (p ++ r)))) refl (split_at-finds p u r)
  where
    by_prefix :
        (o : Option Text)
        → strip_prefix p (c ∷ (u ++ (p ++ r))) ≡ o
        → ((a : Text) × (x : Text) × (split_at p (u ++ (p ++ r)) ≡ some (a, x ++ r)))
        → (a : Text) × (x : Text) × (first_of o (onto_first c (split_at p (u ++ (p ++ r))))
            ≡ some (a, x ++ r))
    by_prefix none h (a, x, e) = (c ∷ a, x, ap (onto_first c) e)
    by_prefix (some t) h _ =
        let (x, e) =
          suffixes p t (c ∷ (u ++ p)) r
            (sym (strip_prefix-exact p _ t h) ∙ ap (λ y. c ∷ y) (sym (append_assoc u p r)))
            (omega (
              arith,
              ap length (strip_prefix-exact p _ t h),
              length-append p t,
              length-append u (p ++ r),
              length-append p r,
            )) in
        ([], x, ap (λ y. some ([], y)) e)
