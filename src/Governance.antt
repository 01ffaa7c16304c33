-- ===== src/Governance.antt =====
-- crates/modeld-core/src/governance.rs: tags, notes, pins and the provenance of models over the
-- database. serde_json on lists of tag entries is a parameter. A time that the code keeps as text is
-- a number.
pub mod Import
pub mod Pins
mod Tests
use mathlib.Core.Bool.{not}
use model_id.Base.{
  ℕ, ◌+◌, Bool, true, false, ◌||◌, Option, none, some, List, [], ◌∷◌, map, select, if◌then◌else◌,
}
use model_id.Base.Text.{Text}
use model_id.Base.Results.{Result, ok, err, parse_error}
use model_id.Hash.{Blake3Hash, as_hex, from_hex}
use model_id.Db.{Database, Model}
use model_id.Db.Models
use model_id.Db.Models.{get_model, list_models}
use model_id.Db.Tags
use model_id.Scanner.{is_empty}
use model_id.Sys.{M, pure, throw, lift, ◌>>=◌, ◌>>◌}
use model_id.Sys.Tables.{query, execute, attempt}

pub record ProvenanceInfo : Type 0 where
  pub source_type : Text
  pub hf_repo_id : Option Text
  pub revision : Option Text
  pub download_url : Option Text
  pub license : Option Text
  pub downloaded_at : Option ℕ
  pub original_filename : Option Text
  pub model_card_url : Option Text

abbrev pub no_value : Result Database → Result (Unit {0} × Database)
no_value (ok db) = ok (tt, db)
no_value (err e) = err e

unfoldable pub add_tag : Blake3Hash → Text → M (Unit {0})
add_tag hash tag = attempt (λ db. no_value (Models.add_tag hash tag db))

unfoldable pub remove_tag : Blake3Hash → Text → M (Unit {0})
remove_tag hash tag = execute (Models.remove_tag hash tag)

unfoldable pub get_tags_for_model : Blake3Hash → M (List Text)
get_tags_for_model hash = query (Tags.get_tags hash)

unfoldable pub list_all_tags : M (List (Text × ℕ))
list_all_tags = query Tags.list_all_tags

unfoldable pub set_note : Blake3Hash → Text → M (Unit {0})
set_note hash text =
    execute (Models.set_model_note hash (if is_empty text then none else some text))

abbrev pub note_of : Option Model → Option Text
note_of none = none
note_of (some m) = m.note

unfoldable pub get_note : Blake3Hash → M (Option Text)
get_note hash = do model ← query (get_model hash); pure (note_of model)

unfoldable pub pin_model : Blake3Hash → M (Unit {0})
pin_model hash = execute (Models.pin_model hash true)

unfoldable pub unpin_model : Blake3Hash → M (Unit {0})
unpin_model hash = execute (Models.pin_model hash false)

abbrev pub is_pin : Option Model → Bool
is_pin none = false
is_pin (some m) = m.pinned

unfoldable pub is_pinned : Blake3Hash → M Bool
is_pinned hash = do found ← query (get_model hash); pure (is_pin found)

unfoldable pub list_pinned : M (List Blake3Hash)
list_pinned = do
  models ← query (list_models none)
  pure (map (λ (m : Model). m.blake3_hash) (select (λ (m : Model). m.pinned) models))

unfoldable pub favorite_model : Blake3Hash → M (Unit {0})
favorite_model hash = execute (Models.favorite_model hash true)

unfoldable pub unfavorite_model : Blake3Hash → M (Unit {0})
unfavorite_model hash = execute (Models.favorite_model hash false)

unfoldable pub set_provenance : Blake3Hash → ProvenanceInfo → M (Unit {0})
set_provenance hash p = execute (
    Models.set_model_provenance hash (some p.source_type) p.hf_repo_id p.revision p.download_url
      p.license none p.downloaded_at p.original_filename p.model_card_url)

abbrev is_some {ℓ} : {A : Type ℓ} → Option A → Bool
is_some none = false
is_some (some a) = true

abbrev pub has_provenance : Model → Bool
has_provenance m =
    is_some m.hf_repo_id
    || is_some m.download_url
    || is_some m.original_filename
    || is_some m.model_card_url
    || is_some m.revision
    || is_some m.license
    || is_some m.downloaded_at

abbrev pub or_empty : Option Text → Text
or_empty none = []
or_empty (some t) = t

abbrev pub info_of : Model → ProvenanceInfo
info_of m = record {
  source_type = or_empty m.source_type;
  hf_repo_id = m.hf_repo_id;
  revision = m.revision;
  download_url = m.download_url;
  license = m.license;
  downloaded_at = m.downloaded_at;
  original_filename = m.original_filename;
  model_card_url = m.model_card_url;
}

abbrev pub provenance_of : Option Model → Option ProvenanceInfo
provenance_of none = none
provenance_of (some m) = if has_provenance m then some (info_of m) else none

unfoldable pub get_provenance : Blake3Hash → M (Option ProvenanceInfo)
get_provenance hash = do model ← query (get_model hash); pure (provenance_of model)

pub record TagEntry : Type 0 where
  pub hash : Text
  pub tags : List Text

abbrev pub onto : Model → List Text → List TagEntry → List TagEntry
onto m tags rest =
    if is_empty tags then rest else record { hash = as_hex m.blake3_hash; tags = tags } ∷ rest

-- The loop of `export_tags_json`.
unfoldable pub export_entries : List Model → M (List TagEntry)
export_entries [] = pure []
export_entries (m ∷ models) = do
  tags ← query (Tags.get_tags m.blake3_hash)
  rest ← export_entries models
  pure (onto m tags rest)

abbrev pub or_parse_error {ℓ} : {A : Type ℓ} → Option A → M A
or_parse_error none = throw parse_error
or_parse_error (some a) = pure a

unfoldable pub export_tags_json : (List TagEntry → Option Text) → M Text
unfolding export_entries
export_tags_json to_string_pretty = do
  models ← query (list_models none)
  entries ← export_entries models
  or_parse_error (to_string_pretty entries)

-- The inner loop of `import_tags_json`, from the count so far.
unfoldable pub import_tags : Blake3Hash → ℕ → List Text → M ℕ
unfolding add_tag
import_tags hash count [] = pure count
import_tags hash count (t ∷ tags) = do
  attempt (λ db. no_value (Models.add_tag hash t db))
  import_tags hash (count + 1) tags

abbrev pub import_known : Blake3Hash → ℕ → List Text → Option Model → M ℕ
import_known hash count tags none = pure count
import_known hash count tags (some m) = import_tags hash count tags

unfoldable pub import_entries : ℕ → List TagEntry → M ℕ
unfolding import_tags from_hex
import_entries count [] = pure count
import_entries count (e ∷ entries) = do
  hash ← lift (from_hex e.hash)
  known ← query (get_model hash)
  more ← import_known hash count e.tags known
  import_entries more entries

unfoldable pub import_tags_json : (Text → Option (List TagEntry)) → Text → M ℕ
unfolding import_entries
import_tags_json from_str json = do
  entries ← or_parse_error (from_str json)
  import_entries 0 entries
