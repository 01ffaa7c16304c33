-- ===== src/Proxy/Range/Print.antt =====
-- What `parse_range` makes of the three forms of a byte range, and the bounds of its answers.
use model_id.Base.{
  ℕ, ◌+◌, ◌-◌, ◌^◌, ◌≤◌, ◌<◌, ◌≡◌, ◌≢◌, refl, false, ◌↔◌, [], ◌∷◌, ◌++◌, Option, none, some, arith,
  leb, if◌then◌else◌, All-append,
}
use model_id.Base.Options.{◌>>=◌, >>=-eq-some}
use model_id.Base.Text.{
  Text, codes, trim, trim_of_Solid, Solid, strip_prefix, strip_prefix-append, before,
  before_of_Lacks, split_once, split_once_lem, Lacks, is_whitespace,
}
use model_id.Base.Decimal.{
  parse_u64, Digits, show, show-Digits, Lacks-of_Digits, Solid-of_Digits, parse_below-show,
  show-ne-nil,
}
use model_id.Proxy.Range.{requested, satisfiable, parse_range}

satisfiable_bounds :
    (start end n : ℕ) {r : ℕ × ℕ} → satisfiable start end n ≡ some r → (r.0 ≤ r.1) × (r.1 < n)
unfolding satisfiable
satisfiable_bounds start end n h = ground arith

-- Whatever the header, a range that is returned is not empty and lies within the content.
pub parse_range_bounds :
    (header : Option Text) (total_len : ℕ) {r : ℕ × ℕ}
    → parse_range header total_len ≡ some r
    → (r.0 ≤ r.1) × (r.1 < total_len)
unfolding parse_range
parse_range_bounds header n h =
    let (text, _, h1) = >>=-eq-some header _ h in
    let (rest, _, h2) = >>=-eq-some (strip_prefix (codes "bytes=") (trim text)) _ h1 in
    let (p, _, h3) = >>=-eq-some (split_once b'-' (trim (before b',' rest))) _ h2 in
    let (q, _, h4) = >>=-eq-some (requested (trim p.0) (trim p.1) n) _ h3 in
    satisfiable_bounds q.0 q.1 n h4

-- A byte range as RFC 7233 writes it.
pub data ByteRange : Type 0 where
  absolute : ℕ → ℕ → ByteRange
  starting : ℕ → ByteRange
  suffix : ℕ → ByteRange

-- Its numbers fit a u64.
abbrev pub Fits : ByteRange → Type 0
Fits (absolute a b) = (a < 2 ^ 64) × (b < 2 ^ 64)
Fits (starting a) = a < 2 ^ 64
Fits (suffix k) = k < 2 ^ 64

abbrev ends : ByteRange → Text × Text
ends (absolute a b) = (show a, show b)
ends (starting a) = (show a, [])
ends (suffix k) = ([], show k)

-- The header's text.
abbrev pub print : ByteRange → Text
print r = codes "bytes=" ++ (ends r).0 ++ b'-' ∷ (ends r).1

-- Which bytes of a content of `n` bytes it asks for.
abbrev pub Wants : ByteRange → ℕ → ℕ → Type 0
Wants (absolute a b) n i = (a ≤ i) × (i ≤ b)
Wants (starting a) n i = a ≤ i
Wants (suffix k) n i = n ≤ i + k

abbrev pub Selects : Option (ℕ × ℕ) → ℕ → Type 0
Selects none i = ⊥
Selects (some (a, b)) i = (a ≤ i) × (i ≤ b)

show-Solid : (n : ℕ) → Solid (show n)
show-Solid n = Solid-of_Digits (show n) (show-Digits n)

-- The text steps hand the two numbers on.
parse_range-Digits :
    (s e : Text) (n : ℕ)
    → Digits s
    → Digits e
    → parse_range (some (codes "bytes=" ++ s ++ b'-' ∷ e)) n
      ≡ (requested s e n >>= λ (a, b). satisfiable a b n)
unfolding parse_range
parse_range-Digits s e n ds de = rw (
  trim_of_Solid (codes "bytes=" ++ spec) header_solid,
  strip_prefix-append (codes "bytes=") spec,
  before_of_Lacks b',' spec spec_lacks,
  trim_of_Solid spec spec_solid,
  split_once_lem b'-' s e (Lacks-of_Digits b'-' s refl ds),
  trim_of_Solid s (Solid-of_Digits s ds),
  trim_of_Solid e (Solid-of_Digits e de),
)
  where
    spec : Text
    spec = s ++ b'-' ∷ e

    spec_solid : Solid spec
    spec_solid =
        All-append (λ c. is_whitespace c ≡ false) s (b'-' ∷ e) (Solid-of_Digits s ds)
          (refl, Solid-of_Digits e de)

    header_solid : Solid (codes "bytes=" ++ spec)
    header_solid =
        All-append (λ c. is_whitespace c ≡ false) (codes "bytes=") spec (ground arith) spec_solid

    spec_lacks : Lacks b',' spec
    spec_lacks =
        All-append (λ c. c ≢ b',') s (b'-' ∷ e) (Lacks-of_Digits b',' s refl ds)
          ((λ h. omega arith), Lacks-of_Digits b',' e refl de)

requested-absolute :
    (s e : Text) (n a b : ℕ)
    → s ≢ []
    → e ≢ []
    → parse_u64 s ≡ some a
    → parse_u64 e ≡ some b
    → requested s e n ≡ some (a, b)
unfolding requested
requested-absolute [] e n a b hs he p q = absurd (hs refl)
requested-absolute (c ∷ s) [] n a b hs he p q = absurd (he refl)
requested-absolute (c ∷ s) (d ∷ e) n a b hs he p q = rw (p, q)

requested-starting :
    (s : Text) (n a : ℕ) → s ≢ [] → parse_u64 s ≡ some a → requested s [] n ≡ some (a, n - 1)
unfolding requested
requested-starting [] n a hs p = absurd (hs refl)
requested-starting (c ∷ s) n a hs p = rw p

requested-suffix :
    (e : Text) (n k : ℕ)
    → e ≢ []
    → parse_u64 e ≡ some k
    → requested [] e n ≡ (if leb k 0 then none else some (n - k, n - 1))
unfolding requested
requested-suffix [] n k he p = absurd (he refl)
requested-suffix (c ∷ e) n k he p = rw p

parse_u64-show : (n : ℕ) → n < 2 ^ 64 → parse_u64 (show n) ≡ some n
unfolding parse_u64
parse_u64-show n h = parse_below-show (2 ^ 64) n h

-- The answer, form by form.
abbrev answer : ByteRange → ℕ → Option (ℕ × ℕ)
answer (absolute a b) n = satisfiable a b n
answer (starting a) n = satisfiable a (n - 1) n
answer (suffix k) n = if leb k 0 then none else satisfiable (n - k) (n - 1) n

parse_range-print : (r : ByteRange) (n : ℕ) → Fits r → parse_range (some (print r)) n ≡ answer r n
parse_range-print (absolute a b) n (ha, hb) = rw (
  parse_range-Digits (show a) (show b) n (show-Digits a) (show-Digits b),
  requested-absolute (show a) (show b) n a b (show-ne-nil a) (show-ne-nil b) (parse_u64-show a ha)
      (parse_u64-show b hb),
)
parse_range-print (starting a) n h = rw (
  parse_range-Digits (show a) [] n (show-Digits a) tt,
  requested-starting (show a) n a (show-ne-nil a) (parse_u64-show a h),
)
parse_range-print (suffix k) n h =
    rw
      (
        parse_range-Digits [] (show k) n tt (show-Digits k),
        requested-suffix (show k) n k (show-ne-nil k) (parse_u64-show k h),
      )
      (ground arith)

answer_exact : (r : ByteRange) (n i : ℕ) → ((i < n) × Wants r n i) ↔ Selects (answer r n) i
unfolding satisfiable
answer_exact (absolute a b) n i = ground arith
answer_exact (starting a) n i = ground arith
answer_exact (suffix k) n i = ground arith

-- The positions that come back for a well-formed header are exactly the bytes of the content that
-- the range asks for. Of a header that is refused this says that it asks for no byte of the
-- content.
pub parse_range_exact :
    (r : ByteRange) (total_len i : ℕ)
    → Fits r
    → ((i < total_len) × Wants r total_len i) ↔ Selects (parse_range (some (print r)) total_len) i
parse_range_exact r n i h = rw (parse_range-print r n h) (answer_exact r n i)
