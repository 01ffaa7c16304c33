-- ===== src/Dedup/Savings.antt =====
-- The savings of a plan of crates/modeld-core/src/dedup.rs.
use model_id.Base.{
  ℕ, ◌+◌, ◌*◌, ◌%◌, ◌^◌, ◌≡◌, inl, inr, refl, ap, ◌∙◌, false, not, List, [], ◌∷◌, map, arith,
  select, length, All, list_eq, nat_eq, ◌==◌, ==_iff, ==_refl,
}
use model_id.Base.Text.{Text}
use model_id.Hash.{Blake3Hash}
use model_id.Sys.{FilePath, World}
use model_id.Sys.Results.{Ends, Ends-pure, Ends-bind}
use model_id.Dedup.{
  FileInfo, DuplicateGroup, DedupEngine, estimate, plan_groups, pred_u64, savings_from,
  calculate_savings, select_canonical, u64,
}
use model_id.Dedup.Select.{IsOneOf}
use model_id.Dedup.Kept.{select_canonical-Keeping}

-- No two files of the group have one path.
abbrev pub HasDistinctPaths : List FileInfo → Type 0
HasDistinctPaths [] = Unit
HasDistinctPaths (f ∷ fs) =
    All (λ (g : FileInfo). (g.path == f.path) ≡ false) fs × HasDistinctPaths fs

abbrev others : FilePath → List FileInfo → List FileInfo
others p files = select (λ (f : FileInfo). not (f.path == p)) files

length-others :
    (c : FileInfo) (files : List FileInfo)
    → IsOneOf c files
    → HasDistinctPaths files
    → length (others c.path files) ≡ pred_u64 (length files)
length-others c [] i _ = elim i [ ]
length-others c (f ∷ fs) (inl e) (fresh, d) =
    ap (λ (h : FileInfo). length (others h.path (f ∷ fs))) e
    ∙ rw (==_refl f.path) (all_kept fs fresh)
  where
    all_kept :
        (gs : List FileInfo)
        → All (λ (g : FileInfo). (g.path == f.path) ≡ false) gs
        → length (select (λ (g : FileInfo). not (g.path == f.path)) gs) ≡ length gs
    all_kept [] _ = refl
    all_kept (g ∷ gs) (n, h) = ground (arith, n, all_kept gs h)
length-others c (f ∷ []) (inr i) _ = elim i [ ]
length-others c (f ∷ g ∷ fs) (inr i) (fresh, d) = ground (
  arith,
  apart (g ∷ fs) i fresh,
  length-others c (g ∷ fs) i d,
  ==_iff f.path c.path,
  ==_iff c.path f.path,
)
  where
    apart :
        (gs : List FileInfo)
        → IsOneOf c gs
        → All (λ (g : FileInfo). (g.path == f.path) ≡ false) gs
        → (c.path == f.path) ≡ false
    apart [] i _ = elim i [ ]
    apart (g ∷ gs) (inl e) (n, _) = ap (λ (h : FileInfo). h.path == f.path) e ∙ n
    apart (g ∷ gs) (inr i) (_, h) = apart gs i h

length-map_path : (fs : List FileInfo) → length (map (λ (f : FileInfo). f.path) fs) ≡ length fs
length-map_path [] = refl
length-map_path (f ∷ fs) = omega (arith, length-map_path fs)

module _ (blake3 : Text → Blake3Hash) where
  plan_groups-savings :
      (e : DedupEngine) (total : ℕ) (groups : List DuplicateGroup) (w : World)
      → All (λ (g : DuplicateGroup). HasDistinctPaths g.files) groups
      → Ends
          (λ plan _. plan.total_savings_bytes ≡ savings_from total groups)
          (λ _. Unit)
          (plan_groups blake3 e total groups w)
  unfolding plan_groups savings_from
  plan_groups-savings e total [] w _ = Ends-pure _ w refl
  plan_groups-savings e total (g ∷ groups) w (d, ds) =
      Ends-bind (select_canonical blake3 e g.files) _ w
        (select_canonical-Keeping blake3 e g.files w)
        (λ sel v ((c, (i, _, _, _, same), _), _).
          Ends-bind (plan_groups blake3 e (u64 blake3 (total + estimate blake3 g sel)) groups) _ v
            (plan_groups-savings e (u64 blake3 (total + estimate blake3 g sel)) groups v ds)
            (λ plan u h. Ends-pure _ u (
              h
              ∙ ap (λ n. savings_from ((total + g.total_size * n % 2 ^ 64) % 2 ^ 64) groups)
                  (ap length same
                    ∙ length-map_path (others c.path g.files)
                    ∙ length-others c g.files i d)))
            (λ u _. tt))
        (λ v _. tt)

  -- If the plan is made, its savings are those that `calculate_savings` sums, on 64 bits: in each
  -- group all files but one are replaced; no group has two files at one path.
  pub plan_groups-calculate_savings :
      (e : DedupEngine) (groups : List DuplicateGroup) (w : World)
      → All (λ (g : DuplicateGroup). HasDistinctPaths g.files) groups
      → Ends
          (λ plan _. plan.total_savings_bytes ≡ calculate_savings groups)
          (λ _. Unit)
          (plan_groups blake3 e 0 groups w)
  unfolding calculate_savings
  plan_groups-calculate_savings e groups w d = plan_groups-savings e 0 groups w d
