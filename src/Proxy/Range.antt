-- ===== src/Proxy/Range.antt =====
-- crates/modeld-proxy/src/range.rs: the `Range` header of a blob request. Numbers are u64; the
-- header is ASCII, as `HeaderValue::to_str` admits no other.
pub mod Print
mod Tests
use model_id.Base.{
  ℕ, ◌-◌, ◌≤◌, ◌<◌, ◌≡◌, Bool, ◌||◌, List, [], ◌∷◌, Option, none, some, arith, ltb, leb, min,
  if◌then◌else◌,
}
use model_id.Base.Text.{Text, codes, trim, strip_prefix, before, split_once}
use model_id.Base.Options.{◌>>=◌}
use model_id.Base.Decimal.{parse_u64}

-- The two ends that a spec asks for, before they are held against the content.
unfoldable pub requested : Text → Text → ℕ → Option (ℕ × ℕ)
requested [] [] total_len = none
requested [] (c ∷ e) total_len = do
  n ← parse_u64 (c ∷ e)
  if leb n 0 then none else some (total_len - n, total_len - 1)
requested (c ∷ s) [] total_len = do start ← parse_u64 (c ∷ s); some (start, total_len - 1)
requested (c ∷ s) (d ∷ e) total_len = do
  start ← parse_u64 (c ∷ s)
  end ← parse_u64 (d ∷ e)
  some (start, end)

-- The refusals, and the clamp to the last byte.
unfoldable pub satisfiable : ℕ → ℕ → ℕ → Option (ℕ × ℕ)
satisfiable start end total_len =
    if ltb end start || leb total_len start then none else some (start, min end (total_len - 1))

unfoldable pub parse_range : Option Text → ℕ → Option (ℕ × ℕ)
unfolding requested satisfiable
parse_range header total_len = do
  header ← header
  rest ← strip_prefix (codes "bytes=") (trim header)
  (s, e) ← split_once b'-' (trim (before b',' rest))
  (start, end) ← requested (trim s) (trim e) total_len
  satisfiable start end total_len
