-- ===== src/Governance/Tests.antt =====
-- Governance on small tables.
use model_id.Base.{◌≡◌, refl, none, some, List, [], ◌∷◌, list_eq, nat_eq}
use model_id.Base.Text.{codes}
use model_id.Base.Dict.{lookup}
use model_id.Hash.{Blake3Hash, as_hex, prefix}
use model_id.Db.{Database}
use model_id.Db.Models.{new_model}
use model_id.Sys.{World, file, fine, fails}
use model_id.Sys.Results.{Ends}
use model_id.Sys.Sample.{empty_db, store, world}
use model_id.Quarantine.Codec.{codec}
use model_id.Cas.{path_for_hash}
use model_id.Gc.{new, run_safe}
use model_id.Governance.{TagEntry, pin_model, import_tags_json}
use model_id.Governance.Import.{Grows, IsImported, tags_listed, import_tags_json-IsImported}
use model_id.Governance.Pins.{pin_model-run_safe}

abbrev hash : Blake3Hash
hash = record { hex = codes "abcdabcdabcdabcdabcdabcdabcdabcdabcdabcdabcdabcdabcdabcdabcdabcd" }

abbrev one_model : Database
one_model = record empty_db {
  models = new_model 1 5 hash 7 none none none none ∷ [];
  model_seq = 1;
}

abbrev one_object : World
one_object =
    world ((path_for_hash (new store).cas hash, file (codes "weights")) ∷ []) one_model
      (fine ∷ fails ∷ [])

pin_model-run_safe_example :
    Ends
      (λ _ v.
        lookup (path_for_hash (new store).cas hash) (run_safe codec (new store) v).1.fs
        ≡ some (file (codes "weights")))
      (λ _. Unit)
      (pin_model hash one_object)
unfolding path_for_hash as_hex prefix lookup list_eq nat_eq
pin_model-run_safe_example = pin_model-run_safe codec store hash (codes "weights") one_object refl

abbrev listed : List TagEntry
listed = record { hash = hash.hex; tags = codes "lora" ∷ codes "sd15" ∷ [] } ∷ []

import_tags_json-IsImported_example :
    Ends
      (λ n v.
        (n ≡ tags_listed one_model listed)
        × Grows one_model v.db
        × IsImported one_model listed v.db)
      (λ _. Unit)
      (import_tags_json (λ s. some listed) (codes "[]") one_object)
import_tags_json-IsImported_example =
    import_tags_json-IsImported (λ s. some listed) (codes "[]") listed one_object refl
