-- ===== src/Cas/Paths.antt =====
-- Where the store (crates/modeld-core/src/cas.rs) puts its objects.
use model_id.Base.{
  ◌≡◌, ◌≢◌, ap, sym, ◌∙◌, some, [], ◌∷◌, arith, take, length, length-append, list_eq, nat_eq,
}
use model_id.Base.Text.{Text, codes}
use model_id.Hash.{Blake3Hash, as_hex, prefix}
use model_id.Sys.{FilePath}
use model_id.Sys.Files.{join, parent, file_name, file_name-join, parent-join}
use model_id.Cas.{CasStore, cas_root, path_for_hash}

-- Two hashes have two paths.
pub path_for_hash-injective :
    (cas : CasStore) (g h : Blake3Hash) → path_for_hash cas g ≡ path_for_hash cas h → g.hex ≡ h.hex
unfolding path_for_hash as_hex
path_for_hash-injective cas g h e =
    sym (file_name-join _ g.hex) ∙ ap file_name e ∙ file_name-join _ h.hex

-- No object stands in `{root}/quarantine`.
pub path_for_hash-apart :
    (cas : CasStore) (h : Blake3Hash) (name : Text)
    → join (join cas.root (codes "quarantine")) name ≢ path_for_hash cas h
unfolding path_for_hash as_hex prefix
path_for_hash-apart cas h name e = omega (
  arith,
  ap length e,
  length-append (join cas.root (codes "quarantine")) (name ∷ []),
  length-append cas.root (codes "quarantine" ∷ []),
  length-append (join (cas_root cas) (take 2 h.hex)) (h.hex ∷ []),
  length-append (cas_root cas) (take 2 h.hex ∷ []),
  length-append (join cas.root (codes "cas")) (codes "blake3" ∷ []),
  length-append cas.root (codes "cas" ∷ []),
)

pub path_for_hash-not_inside :
    (cas : CasStore) (h : Blake3Hash)
    → parent (path_for_hash cas h) ≢ some (join cas.root (codes "quarantine"))
unfolding path_for_hash as_hex prefix
path_for_hash-not_inside cas h e = longer (some-injective (sym (parent-join _ h.hex) ∙ e))
  where
    some-injective : {p q : FilePath} → some p ≡ some q → p ≡ q
    some-injective e = cc

    longer : join (cas_root cas) (take 2 h.hex) ≢ join cas.root (codes "quarantine")
    longer e = omega (
      arith,
      ap length e,
      length-append cas.root (codes "quarantine" ∷ []),
      length-append (cas_root cas) (take 2 h.hex ∷ []),
      length-append (join cas.root (codes "cas")) (codes "blake3" ∷ []),
      length-append cas.root (codes "cas" ∷ []),
    )
