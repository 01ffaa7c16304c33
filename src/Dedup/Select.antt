-- ===== src/Dedup/Select.antt =====
-- Which file `select_canonical` (crates/modeld-core/src/dedup.rs) keeps.
use model_id.Base.{
  ◌≤◌, ◌≡◌, ◌⊎◌, inl, inr, refl, sym, ap, ◌∙◌, Bool, true, false, not, Option, none, some, List, [],
  ◌∷◌, map, arith, any, find, select, length, if◌then◌else◌, All, All-mono, list_eq, nat_eq, ◌==◌,
  ==_iff, ==_refl,
}
use model_id.Base.Text.{Text, codes}
use model_id.Base.Lexical.{text_leb, text_leb_refl, text_leb_total, text_leb_trans}
use model_id.Sys.{FilePath}
use model_id.Sys.Files.{is_under}
use model_id.Dedup.{
  FileInfo, CanonicalSelection, DedupEngine, path_text, key_leb, newest_of, choose, is_in_cas,
  is_protected, newest_reason, by_place, select_unpinned,
}

key_leb_refl : (f : FileInfo) → key_leb f f ≡ true
unfolding key_leb
key_leb_refl f =
    rw (==_refl f.mtime, ==_refl (length (path_text f.path))) (text_leb_refl (path_text f.path))

key_leb_total : (f g : FileInfo) → key_leb f g ≡ false → key_leb g f ≡ true
unfolding key_leb
key_leb_total f g e = ground (
  arith,
  e,
  text_leb_total (path_text g.path) (path_text f.path),
  ==_iff f.mtime g.mtime,
  ==_iff g.mtime f.mtime,
  ==_iff (length (path_text f.path)) (length (path_text g.path)),
  ==_iff (length (path_text g.path)) (length (path_text f.path)),
)

key_leb_trans : (f g h : FileInfo) → key_leb f g ≡ true → key_leb g h ≡ true → key_leb f h ≡ true
unfolding key_leb
key_leb_trans f g h e k = ground (
  arith,
  e,
  k,
  text_leb_trans (path_text h.path) (path_text g.path) (path_text f.path),
  ==_iff f.mtime g.mtime,
  ==_iff g.mtime h.mtime,
  ==_iff f.mtime h.mtime,
  ==_iff (length (path_text f.path)) (length (path_text g.path)),
  ==_iff (length (path_text g.path)) (length (path_text h.path)),
  ==_iff (length (path_text f.path)) (length (path_text h.path)),
)

-- The file is one of the list.
abbrev pub IsOneOf : FileInfo → List FileInfo → Type 0
IsOneOf c [] = ⊥
IsOneOf c (f ∷ fs) = (c ≡ f) ⊎ IsOneOf c fs

newest_of-IsOneOf : (best : FileInfo) (fs : List FileInfo) → IsOneOf (newest_of best fs) (best ∷ fs)
unfolding newest_of
newest_of-IsOneOf best [] = inl refl
newest_of-IsOneOf best (f ∷ fs) =
    by_key (key_leb best f) (newest_of-IsOneOf (if key_leb best f then f else best) fs)
  where
    by_key :
        (b : Bool) {c : FileInfo}
        → (c ≡ (if b then f else best)) ⊎ IsOneOf c fs
        → (c ≡ best) ⊎ ((c ≡ f) ⊎ IsOneOf c fs)
    by_key true (inl e) = inr (inl e)
    by_key false (inl e) = inl e
    by_key b (inr h) = inr (inr h)

newest_of-All :
    (best : FileInfo) (fs : List FileInfo)
    → (key_leb best (newest_of best fs) ≡ true) × All (λ f. key_leb f (newest_of best fs) ≡ true) fs
unfolding newest_of
newest_of-All best [] = (key_leb_refl best, tt)
newest_of-All best (f ∷ fs) =
    by_key (key_leb best f) refl (newest_of (if key_leb best f then f else best) fs)
      (newest_of-All (if key_leb best f then f else best) fs)
  where
    by_key :
        (b : Bool)
        → key_leb best f ≡ b
        → (c : FileInfo)
        → (key_leb (if b then f else best) c ≡ true) × All (λ g. key_leb g c ≡ true) fs
        → (key_leb best c ≡ true) × ((key_leb f c ≡ true) × All (λ g. key_leb g c ≡ true) fs)
    by_key true e c (h, hs) = (key_leb_trans best f c e h, (h, hs))
    by_key false e c (h, hs) = (h, (key_leb_trans f best c (key_leb_total best f e) h, hs))

module _ (p : FileInfo → Bool) where
  pub find-IsOneOf :
      (files : List FileInfo) (c : FileInfo)
      → find p files ≡ some c
      → IsOneOf c files × (p c ≡ true)
  find-IsOneOf [] c e = cc
  find-IsOneOf (f ∷ fs) c e = by_test (p f) refl e (find-IsOneOf fs c)
    where
      same : {a b : FileInfo} → some a ≡ some b → a ≡ b
      same k = cc

      by_test :
          (b : Bool)
          → p f ≡ b
          → (if b then some f else find p fs) ≡ some c
          → (find p fs ≡ some c → IsOneOf c fs × (p c ≡ true))
          → ((c ≡ f) ⊎ IsOneOf c fs) × (p c ≡ true)
      by_test true h k rest = (inl (sym (same k)), ap p (sym (same k)) ∙ h)
      by_test false h k rest = let (i, q) = rest k in (inr i, q)

  pub find-none : (files : List FileInfo) → find p files ≡ none → any p files ≡ false
  find-none [] e = refl
  find-none (f ∷ fs) e = ground (arith, e, find-none fs)

-- `f` is older than `c`, or as old with a longer path, or with one as long that is not before it.
abbrev pub NotAfter : FileInfo → FileInfo → Type 0
NotAfter f c =
    (f.mtime ≤ c.mtime)
    × (f.mtime ≡ c.mtime → length (path_text c.path) ≤ length (path_text f.path))
    × (f.mtime ≡ c.mtime
        → length (path_text f.path) ≡ length (path_text c.path)
        → text_leb (path_text c.path) (path_text f.path) ≡ true)

key_leb-NotAfter : (f c : FileInfo) → key_leb f c ≡ true → NotAfter f c
unfolding key_leb
key_leb-NotAfter f c e = (
  ground (arith, e, ==_iff f.mtime c.mtime),
  λ k. ground (
    arith,
    e,
    k,
    ==_iff f.mtime c.mtime,
    ==_iff (length (path_text f.path)) (length (path_text c.path)),
  ),
  λ k l. ground (
    arith,
    e,
    k,
    l,
    ==_iff f.mtime c.mtime,
    ==_iff (length (path_text f.path)) (length (path_text c.path)),
  ),
)

-- Why `c` comes before the other files: it is in the store; or no file is, and it is protected; or
-- no file is that either, and no file comes after it.
abbrev pub IsBest : DedupEngine → List FileInfo → FileInfo → Type 0
IsBest e files c =
    (is_in_cas e c ≡ true)
    ⊎ ((any (is_in_cas e) files ≡ false)
        × ((is_protected e c ≡ true)
            ⊎ ((any (is_protected e) files ≡ false) × All (λ f. NotAfter f c) files)))

-- The selection keeps `c` and replaces the files at other paths.
abbrev pub Keeping : List FileInfo → FileInfo → CanonicalSelection → Type 0
Keeping files c sel =
    IsOneOf c files
    × (sel.canonical ≡ c.path)
    × All (λ (f : FileInfo). (f.path ≡ c.path) ⊎ (any (λ p. p == f.path) sel.duplicates ≡ true))
        files
    × (any (λ p. p == c.path) sel.duplicates ≡ false)
    × (sel.duplicates
        ≡ map (λ (f : FileInfo). f.path) (select (λ (f : FileInfo). not (f.path == c.path)) files))

duplicates-All :
    (c : FilePath) (files : List FileInfo)
    → All
        (λ (f : FileInfo).
          (f.path ≡ c)
          ⊎ (any
                (λ p. p == f.path)
                (map
                  (λ (f : FileInfo). f.path)
                  (select (λ (f : FileInfo). not (f.path == c)) files))
              ≡ true))
        files
duplicates-All c [] = tt
duplicates-All c (f ∷ fs) = by_test (f.path == c) refl (duplicates-All c fs)
  where
    others : List FilePath
    others = map (λ (g : FileInfo). g.path) (select (λ (g : FileInfo). not (g.path == c)) fs)

    Stands : List FilePath → FileInfo → Type 0
    Stands ds g = (g.path ≡ c) ⊎ (any (λ p. p == g.path) ds ≡ true)

    more : (g : FileInfo) → Stands others g → Stands (f.path ∷ others) g
    more g (inl e) = inl e
    more g (inr e) = inr (ground (arith, e))

    by_test :
        (b : Bool)
        → (f.path == c) ≡ b
        → All (Stands others) fs
        → All
            (Stands (
              map
                (λ (g : FileInfo). g.path)
                (if not b
                  then f ∷ select (λ (g : FileInfo). not (g.path == c)) fs
                  else select (λ (g : FileInfo). not (g.path == c)) fs)))
            (f ∷ fs)
    by_test true e h = (inl ((==_iff f.path c).0 e), h)
    by_test false e h = (inr (ground (arith, ==_refl f.path)), All-mono more fs h)

pub choose-Keeping :
    (files : List FileInfo) (reason : Text) (c : FileInfo)
    → IsOneOf c files
    → Keeping files c (choose files reason c)
choose-Keeping files reason c i = (i, refl, duplicates-All c.path files, none_kept files, refl)
  where
    none_kept :
        (fs : List FileInfo)
        → any
            (λ p. p == c.path)
            (map (λ (f : FileInfo). f.path) (select (λ (f : FileInfo). not (f.path == c.path)) fs))
          ≡ false
    none_kept [] = refl
    none_kept (f ∷ fs) = ground (arith, none_kept fs)

pub select_unpinned-IsBest :
    (e : DedupEngine) (f : FileInfo) (fs : List FileInfo)
    → (c : FileInfo) × Keeping (f ∷ fs) c (select_unpinned e f fs) × IsBest e (f ∷ fs) c
unfolding newest_of is_under
select_unpinned-IsBest e f fs =
    by_found (find (is_in_cas e) (f ∷ fs)) (find (is_protected e) (f ∷ fs)) refl refl
  where
    by_found :
        (in_cas protected : Option FileInfo)
        → find (is_in_cas e) (f ∷ fs) ≡ in_cas
        → find (is_protected e) (f ∷ fs) ≡ protected
        → (c : FileInfo) × Keeping (f ∷ fs) c (by_place in_cas protected f fs) × IsBest e (f ∷ fs) c
    by_found (some c) _ h k =
        let (i, p) = find-IsOneOf (is_in_cas e) (f ∷ fs) c h in
        (c, choose-Keeping (f ∷ fs) (codes "Already in CAS") c i, inl p)
    by_found none (some c) h k =
        let (i, p) = find-IsOneOf (is_protected e) (f ∷ fs) c k in
        (
          c,
          choose-Keeping (f ∷ fs) (codes "In protected directory") c i,
          inr (find-none (is_in_cas e) (f ∷ fs) h, inl p),
        )
    by_found none none h k = (
      newest_of f fs,
      choose-Keeping (f ∷ fs) (newest_reason (f ∷ fs) (newest_of f fs)) (newest_of f fs)
          (newest_of-IsOneOf f fs),
      inr (
        find-none (is_in_cas e) (f ∷ fs) h,
        inr (
          find-none (is_protected e) (f ∷ fs) k,
          All-mono (λ g h. key_leb-NotAfter g (newest_of f fs) h) (f ∷ fs) (newest_of-All f fs),
        ),
      ),
    )
