-- ===== src/Proxy/Auth/Cidr.antt =====
-- An address rule `a.b.c.d/bits` against the usual meaning of a CIDR block.
use Prim.Native.Nat.{bit_and}
use model_id.Base.{
  ℕ, zero, suc, ◌+◌, ◌-◌, ◌*◌, ◌/◌, ◌%◌, ◌^◌, ◌≤◌, ◌<◌, ◌≡◌, ◌≢◌, refl, ap, ◌∙◌, ◌↔◌, Bool, true,
  false, ◌&&◌, List, [], ◌∷◌, ◌++◌, some, arith, All-append, nat_eq, list_eq, ◌==◌, ==_iff, if_neg,
}
use model_id.Base.Text.{
  Text, split, split_lem, split_of_Lacks, split_once, split_once_lem, split_once_of_Lacks, Lacks,
  is_digit,
}
use model_id.Base.Decimal.{
  parse_u32, show, show-Digits, show-injective, Lacks-of_Digits, parse_below-show,
}
use model_id.Proxy.Auth.{octets_agree, partial_agrees, masked_match, match_parts, ip_matches}

pub record Ipv4 : Type 0 where
  pub a : ℕ
  pub b : ℕ
  pub c : ℕ
  pub d : ℕ

pub record IsAddress (x : Ipv4) : Type 0 where
  pub a_octet : x.a < 256
  pub b_octet : x.b < 256
  pub c_octet : x.c < 256
  pub d_octet : x.d < 256

-- The address as a 32-bit number.
abbrev pub value : Ipv4 → ℕ
value x = x.a * 16777216 + x.b * 65536 + x.c * 256 + x.d

abbrev pub dotted : Ipv4 → Text
dotted x = show x.a ++ b'.' ∷ (show x.b ++ b'.' ∷ (show x.c ++ b'.' ∷ show x.d))

abbrev parts : Ipv4 → List Text
parts x = show x.a ∷ show x.b ∷ show x.c ∷ show x.d ∷ []

show-== : (m n : ℕ) → (show m == show n) ≡ (m == n)
show-== m n = ground (arith, show-injective m n, ap show)

-- A test of the numbers from 0 on, so many of them.
passes : (ℕ → Bool) → ℕ → Bool
passes test zero = true
passes test (suc last) = passes test last && test last

test_of_passes :
    (test : ℕ → Bool) {count : ℕ} (i : ℕ) → i < count → passes test count ≡ true → test i ≡ true
unfolding passes
test_of_passes test {count = zero} i lt all = absurd (omega arith)
test_of_passes test {count = suc last} i lt all =
    ground (arith, test_of_passes test {count = last} i)

-- A byte under the mask of its upper `8 - k` bits.
abbrev masks : ℕ → Bool
masks k = passes (λ x. bit_and x ((255 * 2 ^ k) % 256) == x / 2 ^ k * 2 ^ k) 256

bit_and-mask :
    (k x : ℕ) → masks k ≡ true → x < 256 → bit_and x ((255 * 2 ^ k) % 256) ≡ x / 2 ^ k * 2 ^ k
bit_and-mask k x m h = (==_iff _ _).0 (test_of_passes _ x h m)

parse_u32-show : (n : ℕ) → n < 256 → parse_u32 (show n) ≡ some n
unfolding parse_u32
parse_u32-show n h = parse_below-show (2 ^ 32) n (omega arith)

partial_agrees_lem :
    (p b rem : ℕ)
    → masks (8 - rem) ≡ true
    → p < 256
    → b < 256
    → partial_agrees (show p) (show b) rem
      ≡ (p / 2 ^ (8 - rem) * 2 ^ (8 - rem) == b / 2 ^ (8 - rem) * 2 ^ (8 - rem))
unfolding partial_agrees
partial_agrees_lem p b rem m hp hb = rw (
  parse_u32-show p hp,
  parse_u32-show b hb,
  bit_and-mask (8 - rem) p m hp,
  bit_and-mask (8 - rem) b m hb,
)

abbrev SameBlock : ℕ → Ipv4 → Ipv4 → Type 0
SameBlock bits x y = value x / 2 ^ (32 - bits) ≡ value y / 2 ^ (32 - bits)

masks_hold : (k : ℕ) → k < 9 → masks k ≡ true
unfolding passes nat_eq
masks_hold k h = test_of_passes masks {count = 9} k h refl

pattern abbrev eight+ : ℕ → ℕ
eight+ n = suc (suc (suc (suc (suc (suc (suc (suc n)))))))

upper_bits :
    (rem p b : ℕ)
    → rem < 8
    → (p / 2 ^ (8 - rem) * 2 ^ (8 - rem) == b / 2 ^ (8 - rem) * 2 ^ (8 - rem))
      ≡ (p / 2 ^ (8 - rem) == b / 2 ^ (8 - rem))
upper_bits (eight+ rem) p b h = absurd (omega arith)
upper_bits rem p b h = ground arith

-- Two octets under a partial mask agree exactly in their upper bits.
partial_agrees_upper :
    (rem p b : ℕ)
    → rem < 8
    → p < 256
    → b < 256
    → partial_agrees (show p) (show b) rem ≡ (p / 2 ^ (8 - rem) == b / 2 ^ (8 - rem))
partial_agrees_upper rem p b h hp hb =
    partial_agrees_lem p b rem (masks_hold (8 - rem) (omega arith)) hp hb ∙ upper_bits rem p b h

abbrev octet : ℕ → Ipv4 → ℕ
octet zero x = x.a
octet (suc zero) x = x.b
octet (suc (suc zero)) x = x.c
octet (suc (suc (suc n))) x = x.d

octet-lt : (i : ℕ) (x : Ipv4) → IsAddress x → octet i x < 256
octet-lt (suc (suc (suc n))) x h = h.d_octet
octet-lt _ x h = omega arith

-- The octets before number `i` as one number.
abbrev leading : ℕ → Ipv4 → ℕ
leading zero x = 0
leading (suc zero) x = x.a
leading (suc (suc zero)) x = x.a * 256 + x.b
leading (suc (suc (suc zero))) x = x.a * 65536 + x.b * 256 + x.c
leading (suc (suc (suc (suc n)))) x = value x

value-upper :
    (bits : ℕ) (x : Ipv4)
    → bits < 33
    → IsAddress x
    → value x / 2 ^ (32 - bits)
      ≡ leading (bits / 8) x * 2 ^ (bits % 8) + octet (bits / 8) x / 2 ^ (8 - bits % 8)
value-upper (eight+ (eight+ (eight+ (eight+ (suc n))))) x h hx = absurd (omega arith)
value-upper bits x h hx = omega arith

-- One case for each number of bits up to 32.
masked_match_lem :
    (bits : ℕ) (x y : Ipv4)
    → bits < 33
    → IsAddress x
    → IsAddress y
    → (masked_match (parts x) (parts y) bits ≡ true) ↔ SameBlock bits x y
unfolding masked_match octets_agree
masked_match_lem (eight+ (eight+ (eight+ (eight+ (suc n))))) x y h hx hy = absurd (omega arith)
masked_match_lem bits x y h hx hy =
    let q = bits / 8 in
    rw (value-upper bits x h hx, value-upper bits y h hy)
      (ground (
        arith,
        show-== x.a y.a,
        show-== x.b y.b,
        show-== x.c y.c,
        show-== x.d y.d,
        partial_agrees_upper (bits % 8) (octet q x) (octet q y) (omega arith) (octet-lt q x hx)
            (octet-lt q y hy),
      ))

show-Lacks : (c n : ℕ) → is_digit c ≡ false → Lacks c (show n)
show-Lacks c n h = Lacks-of_Digits c (show n) h (show-Digits n)

split-dotted : (x : Ipv4) → split b'.' (dotted x) ≡ parts x
split-dotted x = rw (
  split_lem b'.' (show x.a) (show x.b ++ b'.' ∷ (show x.c ++ b'.' ∷ show x.d))
      (show-Lacks b'.' x.a refl),
  split_lem b'.' (show x.b) (show x.c ++ b'.' ∷ show x.d) (show-Lacks b'.' x.b refl),
  split_lem b'.' (show x.c) (show x.d) (show-Lacks b'.' x.c refl),
  split_of_Lacks b'.' (show x.d) (show-Lacks b'.' x.d refl),
)

dotted-Lacks : (x : Ipv4) → Lacks b'/' (dotted x)
dotted-Lacks x = join (show x.a) _ (show-Lacks b'/' x.a refl) (
    join (show x.b) _ (show-Lacks b'/' x.b refl)
      (join (show x.c) _ (show-Lacks b'/' x.c refl) (show-Lacks b'/' x.d refl)))
  where
    join : (s t : Text) → Lacks b'/' s → Lacks b'/' t → Lacks b'/' (s ++ b'.' ∷ t)
    join s t hs ht = All-append (λ c. c ≢ b'/') s (b'.' ∷ t) hs ((λ h. omega arith), ht)

-- The rule `a.b.c.d/bits`.
abbrev pub block : Ipv4 → ℕ → Text
block y bits = dotted y ++ b'/' ∷ show bits

block-split : (y : Ipv4) (bits : ℕ) → split_once b'/' (block y bits) ≡ some (dotted y, show bits)
block-split y bits = split_once_lem b'/' (dotted y) (show bits) (dotted-Lacks y)

dotted-ne-block : (x y : Ipv4) (bits : ℕ) → dotted x ≢ block y bits
dotted-ne-block x y bits e = cc (
  ap (split_once b'/') e,
  split_once_of_Lacks b'/' (dotted x) (dotted-Lacks x),
  block-split y bits,
)

ip_matches-masked :
    (x y : Ipv4) (bits : ℕ)
    → bits < 33
    → ip_matches (dotted x) (block y bits) ≡ masked_match (parts x) (parts y) bits
unfolding ip_matches nat_eq
ip_matches-masked x y bits h = rw (
  if_neg _ (dotted-ne-block x y bits),
  block-split y bits,
  match_parts,
  split-dotted x,
  split-dotted y,
  parse_u32-show bits (omega arith),
)

-- For addresses in dotted notation, a rule `a.b.c.d/bits` with at most 32 bits admits exactly the
-- addresses whose first `bits` bits are those of `a.b.c.d`.
pub ip_matches_cidr :
    (x y : Ipv4) (bits : ℕ)
    → IsAddress x
    → IsAddress y
    → bits ≤ 32
    → (ip_matches (dotted x) (block y bits) ≡ true)
      ↔ (value x / 2 ^ (32 - bits) ≡ value y / 2 ^ (32 - bits))
ip_matches_cidr x y bits hx hy h =
    rw (ip_matches-masked x y bits (omega arith)) (masked_match_lem bits x y (omega arith) hx hy)
