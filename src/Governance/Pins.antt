-- ===== src/Governance/Pins.antt =====
-- What a pin of crates/modeld-core/src/governance.rs does for the collector.
use model_id.Base.{
  ◌≡◌, inr, refl, sym, ap, subst, ◌∙◌, true, false, some, List, [], ◌∷◌, All, list_eq, nat_eq,
  ==_refl,
}
use model_id.Base.Text.{Text}
use model_id.Base.Dict.{lookup}
use model_id.Hash.{Blake3Hash}
use model_id.Db.{Database, Model}
use model_id.Db.Models.{◌=h◌}
use model_id.Db.Models
use model_id.Db.Table.{All-update_where}
use model_id.Sys.{FilePath, World, file}
use model_id.Sys.Apart.{execute-Ends}
use model_id.Sys.Results.{Ends, Ends-mono}
use model_id.Quarantine.{Serde}
use model_id.Cas.{path_for_hash}
use model_id.Gc.{new, run_safe}
use model_id.Gc.Safe.{IsKept, run_safe-Kept}
use model_id.Governance.{pin_model}

each {ℓ} : {A : Type ℓ} {P : A → Type 0} (xs : List A) → ((x : A) → P x) → All P xs
each [] h = tt
each (x ∷ xs) h = (h x, each xs h)

-- Every model of the hash is pinned then.
pin_model-IsKept : (hash : Blake3Hash) (db : Database) → IsKept hash (Models.pin_model hash true db)
unfolding Models.pin_model
pin_model-IsKept hash db = inr (
    inr (
      All-update_where (λ _. Unit {0}) (λ (m : Model). m.blake3_hash ≡ hash → m.pinned ≡ true)
        (λ (m : Model). m.blake3_hash =h hash) (λ m. record m { pinned = true }) db.models
        (λ m e u k. refl)
        (λ m e u k. absurd (clash (sym e ∙ ap (λ x. x =h hash) k ∙ ==_refl hash.hex)))
        (each db.models λ m. tt)))
  where
    clash : false ≡ true → ⊥
    clash e = cc

-- After `pin_model` returned, a run of the collector leaves the object of the hash as it is,
-- whatever calls fail.
pub pin_model-run_safe :
    (json : Serde) (store : FilePath) (hash : Blake3Hash) (t : Text) (w : World)
    → lookup (path_for_hash (new store).cas hash) w.fs ≡ some (file t)
    → Ends
        (λ _ v.
          lookup (path_for_hash (new store).cas hash) (run_safe json (new store) v).1.fs
          ≡ some (file t))
        (λ _. Unit)
        (pin_model hash w)
unfolding pin_model
pin_model-run_safe json store hash t w h =
    Ends-mono (execute-Ends (Models.pin_model hash true) w)
      (λ _ v (d, same).
        run_safe-Kept json store hash t v (subst (IsKept hash) (sym d) (pin_model-IsKept hash w.db))
          (ap (lookup (path_for_hash (new store).cas hash)) same ∙ h))
      (λ v _. tt)
