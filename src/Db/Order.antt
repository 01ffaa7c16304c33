-- ===== src/Db/Order.antt =====
-- `ORDER BY` only moves rows.
use model_id.Base.{
  ℕ, ◌≤◌, All-mono, ◌≡◌, refl, ap, ◌∙◌, ◌||◌, arith, any, Bool, true, false, List, [], ◌∷◌, leb,
  if◌then◌else◌, All,
}
use model_id.Db.Table.{count_where, place, place_asc, order_desc, order_asc}

module _ {ℓ κ} {A : Type ℓ} (P : A → Type κ) (key : A → ℕ) where
  place-All : (x : A) (xs : List A) → P x → All P xs → All P (place key x xs)
  unfolding place
  place-All x [] px h = (px, tt)
  place-All x (y ∷ ys) px (py, h) =
      by_test (leb (key y) (key x)) (px, (py, h)) (py, place-All x ys px h)
    where
      by_test :
          (b : Bool)
          → All P (x ∷ y ∷ ys)
          → All P (y ∷ place key x ys)
          → All P (if b then x ∷ y ∷ ys else y ∷ place key x ys)
      by_test true h k = h
      by_test false h k = k

  pub order_desc-All : (xs : List A) → All P xs → All P (order_desc key xs)
  unfolding order_desc
  order_desc-All [] _ = tt
  order_desc-All (x ∷ xs) (px, h) = place-All x (order_desc key xs) px (order_desc-All xs h)

module _ {ℓ} {A : Type ℓ} (p : A → Bool) (key : A → ℕ) where
  any-place_asc : (x : A) (xs : List A) → any p (place_asc key x xs) ≡ (p x || any p xs)
  unfolding place_asc
  any-place_asc x [] = refl
  any-place_asc x (y ∷ ys) = ground (arith, any-place_asc x ys)

  pub any-order_asc : (xs : List A) → any p (order_asc key xs) ≡ any p xs
  unfolding order_asc
  any-order_asc [] = refl
  any-order_asc (x ∷ xs) =
      any-place_asc x (order_asc key xs) ∙ ap (λ b. p x || b) (any-order_asc xs)

module _ {ℓ} {A : Type ℓ} (p : A → Bool) (key : A → ℕ) where
  any-place : (x : A) (xs : List A) → any p (place key x xs) ≡ (p x || any p xs)
  unfolding place
  any-place x [] = refl
  any-place x (y ∷ ys) = ground (arith, any-place x ys)

  pub any-order_desc : (xs : List A) → any p (order_desc key xs) ≡ any p xs
  unfolding order_desc
  any-order_desc [] = refl
  any-order_desc (x ∷ xs) = any-place x (order_desc key xs) ∙ ap (λ b. p x || b) (any-order_desc xs)

  count_where-place :
      (x : A) (xs : List A) → count_where p (place key x xs) ≡ count_where p (x ∷ xs)
  unfolding place count_where
  count_where-place x [] = refl
  count_where-place x (y ∷ ys) = ground (arith, count_where-place x ys)

  pub count_where-order_desc : (xs : List A) → count_where p (order_desc key xs) ≡ count_where p xs
  unfolding order_desc count_where
  count_where-order_desc [] = refl
  count_where-order_desc (x ∷ xs) =
      omega (arith, count_where-place x (order_desc key xs), count_where-order_desc xs)

-- `ORDER BY key DESC` puts no row before one with a larger key.
module _ {ℓ} {A : Type ℓ} (key : A → ℕ) where
  abbrev pub IsDescending : List A → Type 0
  IsDescending [] = Unit
  IsDescending (x ∷ xs) = All (λ y. key y ≤ key x) xs × IsDescending xs

  place-IsDescending : (x : A) (xs : List A) → IsDescending xs → IsDescending (place key x xs)
  unfolding place
  place-IsDescending x [] h = (tt, tt)
  place-IsDescending x (y ∷ ys) (hy, hs) =
      by_test (leb (key y) (key x)) refl (place-IsDescending x ys hs)
    where
      later : (b : Bool) → leb (key y) (key x) ≡ b → b ≡ true → key y ≤ key x
      later b e k = ground (arith, e, k)

      sooner : (b : Bool) → leb (key y) (key x) ≡ b → b ≡ false → key x ≤ key y
      sooner b e k = ground (arith, e, k)

      by_test :
          (b : Bool)
          → leb (key y) (key x) ≡ b
          → IsDescending (place key x ys)
          → IsDescending (if b then x ∷ y ∷ ys else y ∷ place key x ys)
      by_test true e ih = (
        (later true e refl, All-mono (λ z h. omega (arith, h, later true e refl)) ys hy),
        (hy, hs),
      )
      by_test false e ih = (place-All (λ z. key z ≤ key y) key x ys (sooner false e refl) hy, ih)

  pub order_desc-IsDescending : (xs : List A) → IsDescending (order_desc key xs)
  unfolding order_desc
  order_desc-IsDescending [] = tt
  order_desc-IsDescending (x ∷ xs) = place-IsDescending x _ (order_desc-IsDescending xs)
