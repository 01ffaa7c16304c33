-- ===== src/Hash/Hex.antt =====
-- What a hash made by `from_hex` is.
use model_id.Base.{
  ℕ, ◌≡◌, refl, ap, suc, Bool, true, ◌&&◌, ◌||◌, [], ◌∷◌, map, arith, leb, length, all, nat_eq,
}
use model_id.Base.Text.{Text}
use model_id.Base.Results.{ok}
use model_id.Hash.{Blake3Hash, is_hexdigit, to_lower, from_hex, as_hex}

-- Lower-case hex digits.
abbrev is_lower_hex : ℕ → Bool
is_lower_hex c = (leb b'0' c && leb c b'9') || leb b'a' c && leb c b'f'

pub record IsHash (h : Blake3Hash) : Type 0 where
  pub long : length h.hex ≡ 64
  pub lower : all is_lower_hex h.hex ≡ true

length-map-to_lower : (s : Text) → length (map to_lower s) ≡ length s
length-map-to_lower [] = refl
length-map-to_lower (c ∷ s) = ap suc (length-map-to_lower s)

all-map-to_lower : (s : Text) → all is_hexdigit s ≡ true → all is_lower_hex (map to_lower s) ≡ true
all-map-to_lower [] h = refl
all-map-to_lower (c ∷ s) h = ground (arith, all-map-to_lower s)

map-to_lower_id : (s : Text) → all is_lower_hex s ≡ true → map to_lower s ≡ s
map-to_lower_id [] h = refl
map-to_lower_id (c ∷ s) h = ground (arith, map-to_lower_id s)

all-hexdigit_of_lower : (s : Text) → all is_lower_hex s ≡ true → all is_hexdigit s ≡ true
all-hexdigit_of_lower [] h = refl
all-hexdigit_of_lower (c ∷ s) h = ground (arith, all-hexdigit_of_lower s)

-- An accepted text gives a hash of 64 lower-case hex digits.
pub from_hex-IsHash : (s : Text) {h : Blake3Hash} → from_hex s ≡ ok h → IsHash h
unfolding from_hex
from_hex-IsHash s e = ground (arith, length-map-to_lower s, all-map-to_lower s)

-- The text of a hash is read back as that hash, so the hash is determined by its text and no two
-- spellings of a digest name two objects.
pub from_hex-as_hex : (h : Blake3Hash) → IsHash h → from_hex (as_hex h) ≡ ok h
unfolding from_hex as_hex
from_hex-as_hex h v = ground (arith, all-hexdigit_of_lower h.hex, map-to_lower_id h.hex)
