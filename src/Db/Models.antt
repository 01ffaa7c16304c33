-- ===== src/Db/Models.antt =====
-- The statements of db.rs on `models` and `tags`.
use model_id.Base.{
  ℕ, ◌+◌, Bool, false, ◌&&◌, Option, none, some, List, [], ◌∷◌, ◌++◌, length, any, find, take,
  if◌then◌else◌, list_eq, nat_eq, ◌==◌,
}
use model_id.Base.Text.{Text, codes}
use model_id.Base.Results.{Result, ok, err, foreign_key_violation}
use model_id.Hash.{Blake3Hash}
use model_id.Db.{Database, Model, Tag}
use model_id.Db.Table.{update_where, order_desc, delete_where}

infix 50 ◌=h◌
abbrev pub ◌=h◌ : Blake3Hash → Blake3Hash → Bool
a =h b = a.hex == b.hex

abbrev pub coalesce {ℓ} : {A : Type ℓ} → Option A → Option A → Option A
coalesce none old = old
coalesce (some a) old = some a

-- `SELECT 1 FROM models WHERE blake3_hash = ?`, which a FOREIGN KEY clause asks too
abbrev pub has_model : Blake3Hash → List Model → Bool
has_model h = any (λ (m : Model). m.blake3_hash =h h)

abbrev pub new_model :
    ℕ → ℕ → Blake3Hash → ℕ → Option Text → Option Text → Option Text → Option Text → Model
new_model id now hash size_bytes format arch category base_model = record {
  id = id;
  blake3_hash = hash;
  size_bytes = size_bytes;
  format = format;
  arch = arch;
  category = category;
  base_model = base_model;
  created_at = now;
  last_seen = now;
  quarantined_at = none;
  note = none;
  pinned = false;
  favorited = false;
  source_type = some (codes "local");
  hf_repo_id = none;
  revision = none;
  download_url = none;
  license = none;
  downloaded_by = none;
  downloaded_at = none;
  original_filename = none;
  model_card_url = none;
}

abbrev pub seen_again :
    ℕ → ℕ → Option Text → Option Text → Option Text → Option Text → Model → Model
seen_again now size_bytes format arch category base_model m = record m {
  last_seen = now;
  size_bytes = size_bytes;
  format = coalesce format m.format;
  arch = coalesce arch m.arch;
  category = coalesce category m.category;
  base_model = coalesce base_model m.base_model;
}

-- The row id is that of the connection's last insert, which an update leaves as it was; the sequence
-- of the table is raised by both.
unfoldable pub insert_or_update_model :
    ℕ
    → Blake3Hash
    → ℕ
    → Option Text
    → Option Text
    → Option Text
    → Option Text
    → Database
    → ℕ × Database
insert_or_update_model now hash size_bytes format arch category base_model db =
    if has_model hash db.models
    then (
      db.last_insert_rowid,
      record db {
        models =
            update_where (λ (m : Model). m.blake3_hash =h hash)
              (seen_again now size_bytes format arch category base_model) db.models;
        model_seq = db.model_seq + 1;
      },
    )
    else (
      db.model_seq + 1,
      record db {
        models =
            db.models
            ++ new_model (db.model_seq + 1) now hash size_bytes format arch category base_model
              ∷ [];
        model_seq = db.model_seq + 1;
        last_insert_rowid = db.model_seq + 1;
      },
    )

unfoldable pub get_model : Blake3Hash → Database → Option Model
get_model hash db = find (λ (m : Model). m.blake3_hash =h hash) db.models

unfoldable pub count_models : Database → ℕ
count_models db = length db.models

abbrev sum_sizes : List Model → ℕ
sum_sizes [] = 0
sum_sizes (m ∷ ms) = m.size_bytes + sum_sizes ms

unfoldable pub total_size : Database → ℕ
total_size db = sum_sizes db.models

unfoldable pub list_models : Option ℕ → Database → List Model
unfolding order_desc
list_models none db = order_desc (λ (m : Model). m.created_at) db.models
list_models (some limit) db = take limit (order_desc (λ (m : Model). m.created_at) db.models)

-- `UPDATE models SET … WHERE blake3_hash = ?`
abbrev pub update_model : Blake3Hash → (Model → Model) → Database → Database
update_model hash f db = record db {
  models = update_where (λ (m : Model). m.blake3_hash =h hash) f db.models;
}

unfoldable pub set_model_note : Blake3Hash → Option Text → Database → Database
set_model_note hash note = update_model hash (λ m. record m { note = note })

unfoldable pub pin_model : Blake3Hash → Bool → Database → Database
pin_model hash pinned = update_model hash (λ m. record m { pinned = pinned })

unfoldable pub favorite_model : Blake3Hash → Bool → Database → Database
favorite_model hash favorited = update_model hash (λ m. record m { favorited = favorited })

unfoldable pub set_model_provenance :
    Blake3Hash
    → Option Text
    → Option Text
    → Option Text
    → Option Text
    → Option Text
    → Option Text
    → Option ℕ
    → Option Text
    → Option Text
    → Database
    → Database
set_model_provenance hash source_type hf_repo_id revision download_url license downloaded_by
      downloaded_at original_filename model_card_url =
    update_model hash (λ m. record m {
      source_type = coalesce source_type m.source_type;
      hf_repo_id = coalesce hf_repo_id m.hf_repo_id;
      revision = coalesce revision m.revision;
      download_url = coalesce download_url m.download_url;
      license = coalesce license m.license;
      downloaded_by = coalesce downloaded_by m.downloaded_by;
      downloaded_at = coalesce downloaded_at m.downloaded_at;
      original_filename = coalesce original_filename m.original_filename;
      model_card_url = coalesce model_card_url m.model_card_url;
    })

unfoldable pub quarantine_model : Blake3Hash → ℕ → Database → Database
quarantine_model hash at = update_model hash (λ m. record m { quarantined_at = some at })

abbrev pub is_tag : Blake3Hash → Text → Tag → Bool
is_tag hash tag t = t.model_hash =h hash && t.tag == tag

-- `INSERT OR IGNORE`: a second pair is passed over, a missing model is not.
unfoldable pub add_tag : Blake3Hash → Text → Database → Result Database
add_tag hash tag db =
    if any (is_tag hash tag) db.tags
    then ok db
    else if has_model hash db.models
    then ok (record db { tags = db.tags ++ record { model_hash = hash; tag = tag } ∷ [] })
    else err foreign_key_violation

unfoldable pub remove_tag : Blake3Hash → Text → Database → Database
remove_tag hash tag db = record db { tags = delete_where (is_tag hash tag) db.tags }
