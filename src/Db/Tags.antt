-- ===== src/Db/Tags.antt =====
-- The statements of db.rs that read `tags`.
use model_id.Base.{ℕ, ◌+◌, Option, none, some, List, [], ◌∷◌, map, select, list_eq, nat_eq, ◌==◌}
use model_id.Base.Text.{Text}
use model_id.Base.Dict.{Dict, lookup, insert}
use model_id.Hash.{Blake3Hash, as_hex}
use model_id.Db.Models.{◌=h◌}
use model_id.Db.{Database, Tag}
use model_id.Db.Table.{order_desc}
use model_id.Db.Lexical.{order_text}

unfoldable pub get_tags : Blake3Hash → Database → List Text
unfolding order_text
get_tags hash db =
    order_text (λ t. t)
      (map (λ (t : Tag). t.tag) (select (λ (t : Tag). t.model_hash =h hash) db.tags))

abbrev pub or_zero : Option ℕ → ℕ
or_zero none = 0
or_zero (some n) = n

-- `GROUP BY tag` with the size of each group
unfoldable pub tag_counts : List Tag → Dict Text ℕ → Dict Text ℕ
unfolding lookup insert
tag_counts [] counts = counts
tag_counts (t ∷ tags) counts =
    tag_counts tags (insert t.tag (or_zero (lookup t.tag counts) + 1) counts)

unfoldable pub list_all_tags : Database → List (Text × ℕ)
unfolding tag_counts order_desc order_text
list_all_tags db =
    order_desc (λ (r : Text × ℕ). r.1) (order_text (λ (r : Text × ℕ). r.0) (tag_counts db.tags []))

unfoldable pub list_all_tags_per_model : Database → List (Text × Text)
unfolding order_text
list_all_tags_per_model db =
    order_text (λ (r : Text × Text). r.1)
      (order_text (λ (r : Text × Text). r.0)
        (map (λ (t : Tag). (as_hex t.model_hash, t.tag)) db.tags))

unfoldable pub get_tags_for_model : Text → Database → List Text
unfolding order_text
get_tags_for_model model_hash db =
    order_text (λ t. t)
      (map (λ (t : Tag). t.tag) (select (λ (t : Tag). as_hex t.model_hash == model_hash) db.tags))
