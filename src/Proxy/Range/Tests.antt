-- ===== src/Proxy/Range/Tests.antt =====
-- The unit tests of range.rs, and the theorems at concrete headers.
use model_id.Base.{◌≤◌, ◌<◌, ◌≡◌, refl, ◌+◌, ◌↔◌, some, none, arith, nat_eq}
use model_id.Base.Text.{codes, trim, strip_prefix, before, split_once}
use model_id.Base.Decimal.{parse_u64}
use model_id.Proxy.Range.{parse_range}
use model_id.Proxy.Range.Print.{suffix, Selects, print, parse_range_bounds, parse_range_exact}

ranges_parse :
    (parse_range (some (codes "bytes=0-1023")) 2000 ≡ some (0, 1023))
    × (parse_range (some (codes "bytes=500-")) 1000 ≡ some (500, 999))
    × (parse_range (some (codes "bytes=-2000")) 1000 ≡ some (0, 999))
    × (parse_range (some (codes "bytes=0-10,20-30")) 1000 ≡ some (0, 10))
    × (parse_range (some (codes "bytes=900-5000")) 1000 ≡ some (900, 999))
unfolding parse_range trim strip_prefix before split_once parse_u64 nat_eq
ranges_parse = (refl, refl, refl, refl, refl)

ranges_refused :
    (parse_range none 1000 ≡ none)
    × (parse_range (some (codes "bytes=abc")) 1000 ≡ none)
    × (parse_range (some (codes "bytes=-")) 1000 ≡ none)
    × (parse_range (some (codes "items=0-10")) 1000 ≡ none)
    × (parse_range (some (codes "bytes=-0")) 1000 ≡ none)
    × (parse_range (some (codes "bytes=1000-")) 1000 ≡ none)
unfolding parse_range trim strip_prefix before split_once parse_u64 nat_eq
ranges_refused = (refl, refl, refl, refl, refl, refl)

parse_range_bounds_example : (900 ≤ 999) × (999 < 1000)
unfolding parse_range trim strip_prefix before split_once parse_u64 nat_eq
parse_range_bounds_example = parse_range_bounds (some (codes "bytes=900-5000")) 1000 refl

parse_range_exact_example :
    ((700 < 1000) × (1000 ≤ 700 + 500)) ↔ Selects (parse_range (some (print (suffix 500))) 1000) 700
parse_range_exact_example = parse_range_exact (suffix 500) 1000 700 (omega arith)
