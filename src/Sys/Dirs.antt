-- ===== src/Sys/Dirs.antt =====
-- What `create_dir_all` of `std::fs` leaves, where it is not refused.
use model_id.Base.{
  ◌+◌, ◌<◌, ◌≢◌, length-append, ◌∙◌, ◌≡◌, refl, sym, ap, Bool, true, false, Option, none, some, [],
  ◌∷◌, ◌++◌, arith, length, list_eq, nat_eq, ◌==◌, ==_iff, if◌then◌else◌,
}
use mathlib.Core.List.{append_assoc}
use model_id.Base.Text.{Text}
use model_id.Base.Dict.{lookup, insert, lookup-insert}
use model_id.Sys.{FilePath, Fs, Node, dir, file}
use model_id.Sys.Files.{join, is_some, add_dir, make_dirs, is_file_node, file_above}

-- Making directories changes nothing at a path that is longer.
pub lookup-make_dirs :
    (q done p : FilePath) (fs : Fs)
    → length done + length p < length q
    → lookup q (make_dirs done p fs) ≡ lookup q fs
unfolding make_dirs
lookup-make_dirs q done [] fs h = refl
lookup-make_dirs q done (c ∷ p) fs h =
    lookup-make_dirs q (join done c) p (add_dir (join done c) fs)
      (omega (arith, length-append done (c ∷ [])))
    ∙ ground (arith, lookup-insert q (join done c) dir fs, apart)
  where
    apart : join done c ≢ q
    apart e = omega (arith, ap length e, length-append done (c ∷ []))

-- Directories that are made are there, if no file is in the way.
module _ (d : FilePath) (fs : Fs) where
  is_file-add_dir :
      (q : FilePath) → is_file_node (lookup q (add_dir d fs)) ≡ is_file_node (lookup q fs)
  is_file-add_dir q = by_tests (lookup d fs) refl
    where
      by_tests :
          (o : Option Node)
          → lookup d fs ≡ o
          → is_file_node (lookup q (if is_some o then fs else insert d dir fs))
            ≡ is_file_node (lookup q fs)
      by_tests (some n) e = refl
      by_tests none e = by_path (d == q) refl
        where
          by_path :
              (b : Bool)
              → (d == q) ≡ b
              → is_file_node (lookup q (insert d dir fs)) ≡ is_file_node (lookup q fs)
          by_path true k = ground (arith, lookup-insert q d dir fs, e, (==_iff d q).0 k)
          by_path false k = ground (arith, lookup-insert q d dir fs, k)

  lookup-add_dir : is_file_node (lookup d fs) ≡ false → lookup d (add_dir d fs) ≡ some dir
  lookup-add_dir h = by_node (lookup d fs) refl h
    where
      by_node :
          (o : Option Node)
          → lookup d fs ≡ o
          → is_file_node o ≡ false
          → lookup d (if is_some o then fs else insert d dir fs) ≡ some dir
      by_node none e h = ground (arith, lookup-insert d d dir fs)
      by_node (some dir) e h = e
      by_node (some (file t)) e h = cc

file_above-add_dir :
    (d done p : FilePath) (fs : Fs) → file_above done p (add_dir d fs) ≡ file_above done p fs
unfolding file_above
file_above-add_dir d done [] fs = refl
file_above-add_dir d done (c ∷ p) fs =
    rw (is_file-add_dir d fs (join done c), file_above-add_dir d (join done c) p fs) refl

pub make_dirs-dir :
    (done : FilePath) (c : Text) (p : FilePath) (fs : Fs)
    → file_above done (c ∷ p) fs ≡ false
    → lookup (done ++ c ∷ p) (make_dirs done (c ∷ p) fs) ≡ some dir
unfolding make_dirs file_above
make_dirs-dir done c [] fs h = lookup-add_dir (join done c) fs (ground (arith, h))
make_dirs-dir done c (e ∷ p) fs h =
    ap (λ q. lookup q (make_dirs (join done c) (e ∷ p) (add_dir (join done c) fs)))
      (sym (append_assoc done (c ∷ []) (e ∷ p)))
    ∙ make_dirs-dir (join done c) e p (add_dir (join done c) fs)
        (file_above-add_dir (join done c) (join done c) (e ∷ p) fs ∙ ground (arith, h))
