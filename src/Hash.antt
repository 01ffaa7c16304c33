-- ===== src/Hash.antt =====
-- crates/modeld-core/src/hash.rs: the `Blake3Hash` type. Hashing itself is the blake3 package's.
pub mod Hex
pub mod Reading
mod Tests
use model_id.Base.{
  ℕ, ◌+◌, Bool, ◌&&◌, ◌||◌, List, [], ◌∷◌, map, ltb, leb, if◌then◌else◌, length, take, all, nat_eq,
  ◌==◌,
}
use model_id.Base.Text.{Text}
use model_id.Base.Results.{Result, ok, err, hash_length, hash_characters}

-- The hex text of the digest.
pub record Blake3Hash : Type 0 where
  pub hex : Text

-- `char::is_ascii_hexdigit`
abbrev pub is_hexdigit : ℕ → Bool
is_hexdigit c = (leb b'0' c && leb c b'9') || (leb b'a' c && leb c b'f') || leb b'A' c && leb c b'F'

-- `to_lowercase` on ASCII
abbrev pub to_lower : ℕ → ℕ
to_lower c = if leb b'A' c && leb c b'Z' then c + 32 else c

unfoldable pub from_hex : Text → Result Blake3Hash
from_hex hex =
    if length hex == 64
    then (if all is_hexdigit hex
        then ok (record { hex = map to_lower hex })
        else err hash_characters)
    else err (hash_length (length hex))

unfoldable pub as_hex : Blake3Hash → Text
as_hex h = h.hex

unfoldable pub prefix : Blake3Hash → Text
prefix h = take 2 h.hex
