-- ===== src/Scanner/Tests.antt =====
-- Glob patterns on small paths.
use model_id.Base.{◌≡◌, ◌↔◌, refl, true, ◌||◌, list_eq, nat_eq}
use model_id.Base.Text.{codes, split}
use model_id.Base.Search.{split_at, contains, ends_with}
use model_id.Scanner.{glob_matches, last_part, is_empty}
use model_id.Scanner.Glob.{InOrder, glob_matches-InOrder}

glob_matches-InOrder_example :
    (glob_matches (codes "models/*.bin") (codes "models/a.bin") ≡ true) ↔ (
      InOrder (split b'*' (codes "models/*.bin")) (codes "models/a.bin")
      × ((ends_with (codes "*") (codes "models/*.bin")
            || is_empty (last_part (split b'*' (codes "models/*.bin")))
            || ends_with (last_part (split b'*' (codes "models/*.bin"))) (codes "models/a.bin"))
          ≡ true))
unfolding contains split_at nat_eq
glob_matches-InOrder_example =
    glob_matches-InOrder (codes "models/*.bin") (codes "models/a.bin") refl refl

-- A single wildcard runs over separators.
star_crosses_separator : glob_matches (codes "models/*.bin") (codes "models/sub/a.bin") ≡ true
unfolding glob_matches nat_eq
star_crosses_separator = refl

-- What stands behind the double wildcard may also stand before it.
double_star_forgets_order : glob_matches (codes "cache/**/tmp") (codes "tmp/cache") ≡ true
unfolding glob_matches nat_eq
double_star_forgets_order = refl
