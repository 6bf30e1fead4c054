-- ===== src/Mysql/Order.antt =====
-- What `ORDER BY` keeps.
use kinugasa_recording.Shared.{◌≡◌, refl, Bool, false, ◌||◌, List, [], ◌∷◌, any, is_empty, arith}
use kinugasa_recording.Mysql.Tables.{insert_sorted, order_by}

module _ {ℓ} {A : Type ℓ} (le : A → A → Bool) where
  any-insert_sorted :
      (p : A → Bool) (x : A) (xs : List A) → any p (insert_sorted le x xs) ≡ (p x || any p xs)
  unfolding insert_sorted
  any-insert_sorted p x [] = refl
  any-insert_sorted p x (y ∷ ys) = ground (arith, any-insert_sorted p x ys)

  pub any-order_by : (p : A → Bool) (xs : List A) → any p (order_by le xs) ≡ any p xs
  unfolding order_by
  any-order_by p [] = refl
  any-order_by p (x ∷ xs) =
      ground (arith, any-insert_sorted p x (order_by le xs), any-order_by p xs)

  is_empty-insert_sorted : (x : A) (xs : List A) → is_empty (insert_sorted le x xs) ≡ false
  unfolding insert_sorted
  is_empty-insert_sorted x [] = refl
  is_empty-insert_sorted x (y ∷ ys) = ground arith

  pub is_empty-order_by : (xs : List A) → is_empty (order_by le xs) ≡ is_empty xs
  unfolding order_by
  is_empty-order_by [] = refl
  is_empty-order_by (x ∷ xs) = is_empty-insert_sorted x (order_by le xs)
