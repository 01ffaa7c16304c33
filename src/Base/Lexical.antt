-- ===== src/Base/Lexical.antt =====
-- The order of texts by their bytes.
use model_id.Base.{
  ◌≡◌, refl, Bool, true, false, [], ◌∷◌, arith, ltb, if◌then◌else◌, nat_eq, ◌==◌, ==_iff, ==_refl,
}
use model_id.Base.Text.{Text}

unfoldable pub text_leb : Text → Text → Bool
text_leb [] t = true
text_leb (c ∷ s) [] = false
text_leb (c ∷ s) (d ∷ t) = let rest = text_leb s t in if c == d then rest else ltb c d

pub text_leb_refl : (s : Text) → text_leb s s ≡ true
unfolding text_leb
text_leb_refl [] = refl
text_leb_refl (c ∷ s) = ground (arith, text_leb_refl s, ==_refl c)

pub text_leb_total : (s t : Text) → text_leb s t ≡ false → text_leb t s ≡ true
unfolding text_leb
text_leb_total [] t e = cc
text_leb_total (c ∷ s) [] e = refl
text_leb_total (c ∷ s) (d ∷ t) e = ground (arith, text_leb_total s t, e, ==_iff c d, ==_iff d c)

pub text_leb_trans :
    (s t u : Text) → text_leb s t ≡ true → text_leb t u ≡ true → text_leb s u ≡ true
unfolding text_leb
text_leb_trans [] t u e f = refl
text_leb_trans (c ∷ s) [] u e f = cc
text_leb_trans (c ∷ s) (d ∷ t) [] e f = cc
text_leb_trans (c ∷ s) (d ∷ t) (x ∷ u) e f =
    ground (arith, text_leb_trans s t u, e, f, ==_iff c d, ==_iff d x, ==_iff c x)
