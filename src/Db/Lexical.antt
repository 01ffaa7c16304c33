-- ===== src/Db/Lexical.antt =====
-- `ORDER BY` of a column of texts.
use model_id.Base.{List, [], ◌∷◌, if◌then◌else◌}
use model_id.Base.Text.{Text}
use model_id.Base.Lexical.{text_leb}

module _ {A : Type 0} where
  unfoldable pub place_text : (A → Text) → A → List A → List A
  unfolding text_leb
  place_text key x [] = x ∷ []
  place_text key x (y ∷ ys) =
      if text_leb (key x) (key y) then x ∷ y ∷ ys else y ∷ place_text key x ys

  unfoldable pub order_text : (A → Text) → List A → List A
  unfolding place_text
  order_text key [] = []
  order_text key (x ∷ xs) = place_text key x (order_text key xs)
