-- ===== src/Dedup/Kept.antt =====
-- What `select_canonical` (crates/modeld-core/src/dedup.rs) returns, with its pins.
use model_id.Base.{
  ◌≡◌, ◌⊎◌, inl, inr, refl, Bool, true, false, Option, none, some, List, [], ◌∷◌, any, find,
  if◌then◌else◌, list_eq, nat_eq, ◌==◌,
}
use model_id.Base.Text.{Text, codes}
use model_id.Base.Results.{panic}
use model_id.Hash.{Blake3Hash}
use model_id.Sys.{FilePath, World}
use model_id.Sys.Results.{Ends, Ends-pure, Ends-throw, Ends-bind}
use model_id.Scanner.{is_empty}
use model_id.Dedup.{
  FileInfo, DedupEngine, choose, is_flagged, first_pinned, unless_pinned, unless_flagged,
  select_canonical,
}
use model_id.Dedup.Select.{
  IsOneOf, IsBest, Keeping, find-IsOneOf, find-none, choose-Keeping, select_unpinned-IsBest,
}
use model_id.Dedup.Pinned.{IsPinned, Same, first_pinned-Ends}

module _ (blake3 : Text → Blake3Hash) where
  -- Why `c` is kept: it is flagged; or none is flagged, and `c` is pinned in the database, or comes
  -- before the others by where it lies, its time and its name.
  abbrev pub IsPreferred : DedupEngine → List FileInfo → World → FileInfo → Type 0
  IsPreferred e files w c =
      (is_flagged e c ≡ true)
      ⊎ ((any (is_flagged e) files ≡ false) × (IsPinned blake3 w c ⊎ IsBest e files c))

  -- If `select_canonical` returns, it has changed nothing and keeps one of the files: a flagged one
  -- if there is any, else one that the database pins, or one of the store if there is any, else a
  -- protected one if there is any, else the one modified last, of these the one with the shortest
  -- path, and of these the first by its text; and the files at other paths are replaced.
  pub select_canonical-Keeping :
      (e : DedupEngine) (files : List FileInfo) (w : World)
      → Ends
          (λ sel v.
            ((c : FileInfo) × Keeping files c sel × IsPreferred e files w c) × Same w v.fs v.db)
          (λ v. Same w v.fs v.db)
          (select_canonical blake3 e files w)
  unfolding select_canonical
  select_canonical-Keeping e [] w = Ends-throw panic w (refl, refl)
  select_canonical-Keeping e (f ∷ fs) w = by_flags (is_empty e.pin_paths) refl
    where
      unflagged :
          any (is_flagged e) (f ∷ fs) ≡ false
          → Ends
              (λ sel v.
                ((c : FileInfo) × Keeping (f ∷ fs) c sel × IsPreferred e (f ∷ fs) w c)
                × Same w v.fs v.db)
              (λ v. Same w v.fs v.db)
              (unless_flagged blake3 e f fs none w)
      unflagged n =
          Ends-bind (first_pinned blake3 (f ∷ fs)) _ w
            (first_pinned-Ends blake3 (f ∷ fs) w w (refl, refl))
            (λ o u (h, s). Ends-pure (unless_pinned blake3 e f fs o) u (by_pin o h, s)) (λ u s. s)
        where
          by_pin :
              (o : Option FileInfo)
              → ((c : FileInfo) → o ≡ some c → IsOneOf c (f ∷ fs) × IsPinned blake3 w c)
              → (c : FileInfo) × Keeping (f ∷ fs) c (unless_pinned blake3 e f fs o)
                × IsPreferred e (f ∷ fs) w c
          by_pin (some c) h =
              let (i, p) = h c refl in
              (c, choose-Keeping (f ∷ fs) (codes "Pinned file (governance)") c i, inr (n, inl p))
          by_pin none h = let (c, k, b) = select_unpinned-IsBest e f fs in (c, k, inr (n, inr b))

      by_find :
          (o : Option FileInfo)
          → find (is_flagged e) (f ∷ fs) ≡ o
          → Ends
              (λ sel v.
                ((c : FileInfo) × Keeping (f ∷ fs) c sel × IsPreferred e (f ∷ fs) w c)
                × Same w v.fs v.db)
              (λ v. Same w v.fs v.db)
              (unless_flagged blake3 e f fs o w)
      by_find none k = unflagged (find-none (is_flagged e) (f ∷ fs) k)
      by_find (some c) k =
          let (i, p) = find-IsOneOf (is_flagged e) (f ∷ fs) c k in
          Ends-pure (choose (f ∷ fs) (codes "Explicitly pinned via --pin flag") c) w (
            (c, choose-Keeping (f ∷ fs) (codes "Explicitly pinned via --pin flag") c i, inl p),
            (refl, refl),
          )

      by_flags :
          (b : Bool)
          → is_empty e.pin_paths ≡ b
          → Ends
              (λ sel v.
                ((c : FileInfo) × Keeping (f ∷ fs) c sel × IsPreferred e (f ∷ fs) w c)
                × Same w v.fs v.db)
              (λ v. Same w v.fs v.db)
              (unless_flagged blake3 e f fs (if b then none else find (is_flagged e) (f ∷ fs)) w)
      by_flags true k = unflagged (none_flagged (f ∷ fs) e.pin_paths k)
        where
          none_flagged :
              (files : List FileInfo) (pins : List FilePath)
              → is_empty pins ≡ true
              → any (λ (g : FileInfo). any (λ p. p == g.path) pins) files ≡ false
          none_flagged [] pins k = refl
          none_flagged (g ∷ gs) [] k = none_flagged gs [] k
          none_flagged (g ∷ gs) (p ∷ ps) k = cc
      by_flags false k = by_find (find (is_flagged e) (f ∷ fs)) refl
