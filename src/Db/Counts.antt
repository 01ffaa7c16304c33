-- ===== src/Db/Counts.antt =====
-- `get_gc_candidate_counts` of db.rs: each model with its numbers of aliases and workflow references.
use model_id.Base.{ℕ, List, map}
use model_id.Db.{Database, Model}
use model_id.Db.Aliases.{of_model}
use model_id.Db.Workflows.{to_model}
use model_id.Db.Table.{count_where, order_desc}

pub record GcRow : Type 0 where
  pub model : Model
  pub alias_count : ℕ
  pub workflow_ref_count : ℕ

-- The two LEFT JOINs pair every alias with every reference of a model; COUNT(DISTINCT id) counts
-- each of them once.
abbrev pub row_of : Database → Model → GcRow
row_of db m = record {
  model = m;
  alias_count = count_where (of_model m.blake3_hash) db.aliases;
  workflow_ref_count = count_where (to_model m.blake3_hash) db.workflow_refs;
}

unfoldable pub get_gc_candidate_counts : Database → List GcRow
unfolding order_desc
get_gc_candidate_counts db = map (row_of db) (order_desc (λ (m : Model). m.created_at) db.models)
