-- ===== src/Db/Table.antt =====
-- Statements on one table: `UPDATE … WHERE`, `DELETE … WHERE`, `COUNT`, `ORDER BY`.
use mathlib.Core.Option
use model_id.Base.{
  All, find, some, ℕ, ◌+◌, ◌≡◌, refl, Bool, true, false, List, [], ◌∷◌, ◌++◌, arith, leb,
  if◌then◌else◌, any,
}

module _ {ℓ} {A : Type ℓ} where
  unfoldable pub update_where : (A → Bool) → (A → A) → List A → List A
  update_where p f [] = []
  update_where p f (x ∷ xs) = (if p x then f x else x) ∷ update_where p f xs

  unfoldable pub delete_where : (A → Bool) → List A → List A
  delete_where p [] = []
  delete_where p (x ∷ xs) = let rest = delete_where p xs in if p x then rest else x ∷ rest

  unfoldable pub count_where : (A → Bool) → List A → ℕ
  count_where p [] = 0
  count_where p (x ∷ xs) = (if p x then 1 else 0) + count_where p xs

  unfoldable pub place : (A → ℕ) → A → List A → List A
  place key x [] = x ∷ []
  place key x (y ∷ ys) = if leb (key y) (key x) then x ∷ y ∷ ys else y ∷ place key x ys

  -- `ORDER BY key DESC`; rows with one key keep their order.
  unfoldable pub order_desc : (A → ℕ) → List A → List A
  unfolding place
  order_desc key [] = []
  order_desc key (x ∷ xs) = place key x (order_desc key xs)

  -- `ORDER BY key ASC`
  unfoldable pub place_asc : (A → ℕ) → A → List A → List A
  place_asc key x [] = x ∷ []
  place_asc key x (y ∷ ys) = if leb (key x) (key y) then x ∷ y ∷ ys else y ∷ place_asc key x ys

  unfoldable pub order_asc : (A → ℕ) → List A → List A
  unfolding place_asc
  order_asc key [] = []
  order_asc key (x ∷ xs) = place_asc key x (order_asc key xs)

  pub any-update_where :
      (q p : A → Bool) (f : A → A) (xs : List A)
      → ((x : A) → q (f x) ≡ q x)
      → any q (update_where p f xs) ≡ any q xs
  unfolding update_where
  any-update_where q p f [] h = refl
  any-update_where q p f (x ∷ xs) h = ground (arith, h x, any-update_where q p f xs h)

  pub any-delete_where :
      (q p : A → Bool) (xs : List A)
      → ((x : A) → p x ≡ true → q x ≡ false)
      → any q (delete_where p xs) ≡ any q xs
  unfolding delete_where
  any-delete_where q p [] h = refl
  any-delete_where q p (x ∷ xs) h = ground (arith, h x, any-delete_where q p xs h)

  pub count_where-delete_where_self :
      (p : A → Bool) (xs : List A) → count_where p (delete_where p xs) ≡ 0
  unfolding count_where delete_where
  count_where-delete_where_self p [] = refl
  count_where-delete_where_self p (x ∷ xs) = ground (arith, count_where-delete_where_self p xs)

  pub count_where-delete_where :
      (q p : A → Bool) (xs : List A)
      → ((x : A) → p x ≡ true → q x ≡ false)
      → count_where q (delete_where p xs) ≡ count_where q xs
  unfolding count_where delete_where
  count_where-delete_where q p [] h = refl
  count_where-delete_where q p (x ∷ xs) h = ground (arith, h x, count_where-delete_where q p xs h)

  pub count_where-append :
      (p : A → Bool) (xs ys : List A)
      → count_where p (xs ++ ys) ≡ count_where p xs + count_where p ys
  unfolding count_where
  count_where-append p [] ys = omega arith
  count_where-append p (x ∷ xs) ys = omega (arith, count_where-append p xs ys)

  pub All-update_where {κ μ} :
      (P : A → Type κ) (Q : A → Type μ) (p : A → Bool) (f : A → A) (xs : List A)
      → ((x : A) → p x ≡ true → P x → Q (f x))
      → ((x : A) → p x ≡ false → P x → Q x)
      → All P xs
      → All Q (update_where p f xs)
  unfolding update_where
  All-update_where P Q p f [] h k _ = tt
  All-update_where P Q p f (x ∷ xs) h k (px, ps) =
      (by_test (p x) refl, All-update_where P Q p f xs h k ps)
    where
      by_test : (b : Bool) → p x ≡ b → Q (if b then f x else x)
      by_test true e = h x e px
      by_test false e = k x e px

  pub find-update_where :
      (p : A → Bool) (f : A → A) (xs : List A)
      → ((x : A) → p (f x) ≡ p x)
      → find p (update_where p f xs) ≡ Option.map f (find p xs)
  unfolding update_where
  find-update_where p f [] h = refl
  find-update_where p f (x ∷ xs) h = ground (arith, h x, find-update_where p f xs h)

  pub find-append_fresh :
      (p : A → Bool) (xs : List A) (y : A)
      → any p xs ≡ false
      → p y ≡ true
      → find p (xs ++ y ∷ []) ≡ some y
  find-append_fresh p [] y n h = ground (arith, h)
  find-append_fresh p (x ∷ xs) y n h = ground (arith, n, find-append_fresh p xs y, h)
