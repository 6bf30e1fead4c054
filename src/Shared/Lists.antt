-- ===== src/Shared/Lists.antt =====
-- Lists selected by Boolean tests: the rows of a table, and the loops over a vector.
use Prim.Native.Nat.{ℕ, suc}
use mathlib.Core.Path.{◌≡◌, refl}
use mathlib.Core.Bool.{Bool, true, false, ◌&&◌, ◌||◌}
use mathlib.Core.Option.{Option, none, some}
use mathlib.Core.List.{List, [], ◌∷◌, ◌++◌, map}
use mathlib.Core.Logic.{inl, inr}
use native.Mathlib.Omega.{arith}
use kinugasa_recording.Shared.Tests.{if◌then◌else◌, Bool-cases}

module _ {ℓ} {A : Type ℓ} where
  abbrev pub length : List A → ℕ
  length [] = 0
  length (x ∷ xs) = suc (length xs)

  abbrev pub is_empty : List A → Bool
  is_empty [] = true
  is_empty (x ∷ xs) = false

  abbrev pub any : (A → Bool) → List A → Bool
  any p [] = false
  any p (x ∷ xs) = p x || any p xs

  abbrev pub all : (A → Bool) → List A → Bool
  all p [] = true
  all p (x ∷ xs) = p x && all p xs

  -- The rows that pass a test, in order: `WHERE`.
  abbrev pub select : (A → Bool) → List A → List A
  select p [] = []
  select p (x ∷ xs) = if p x then x ∷ select p xs else select p xs

  -- The first of them.
  abbrev pub find : (A → Bool) → List A → Option A
  find p [] = none
  find p (x ∷ xs) = if p x then some x else find p xs

  -- `UPDATE … WHERE`.
  abbrev pub update : (A → Bool) → (A → A) → List A → List A
  update p f [] = []
  update p f (x ∷ xs) = (if p x then f x else x) ∷ update p f xs

module _ {ℓ} {A : Type ℓ} (p : A → Bool) where
  pub select-append : (xs ys : List A) → select p (xs ++ ys) ≡ select p xs ++ select p ys
  select-append [] ys = refl
  select-append (x ∷ xs) ys = ground (arith, select-append xs ys)

  pub select-append_miss :
      (xs : List A) (x : A) → p x ≡ false → select p (xs ++ x ∷ []) ≡ select p xs
  select-append_miss [] x h = ground arith
  select-append_miss (y ∷ xs) x h = ground (arith, select-append_miss xs x h)

  pub find-none-select : (xs : List A) → find p xs ≡ none → select p xs ≡ []
  find-none-select [] h = refl
  find-none-select (x ∷ xs) h = ground (arith, find-none-select xs)

  pub select-nil-find : (xs : List A) → select p xs ≡ [] → find p xs ≡ none
  select-nil-find [] h = refl
  select-nil-find (x ∷ xs) h = ground (arith, select-nil-find xs)

  pub find_holds : (xs : List A) (a : A) → find p xs ≡ some a → p a ≡ true
  find_holds [] a h = ground arith
  find_holds (x ∷ xs) a h = ground (arith, find_holds xs a)

  -- No row passes the test.
  pub select_none : (xs : List A) → any p xs ≡ false → select p xs ≡ []
  select_none [] h = refl
  select_none (x ∷ xs) h = ground (arith, select_none xs)

  pub any-append : (xs ys : List A) → any p (xs ++ ys) ≡ (any p xs || any p ys)
  any-append [] ys = refl
  any-append (x ∷ xs) ys = ground (arith, any-append xs ys)

  pub all-append : (xs ys : List A) → all p (xs ++ ys) ≡ (all p xs && all p ys)
  all-append [] ys = refl
  all-append (x ∷ xs) ys = ground (arith, all-append xs ys)

-- What an update leaves alone.
module _ {ℓ} {A : Type ℓ} (p : A → Bool) (f : A → A) where
  pub update_none : (xs : List A) → any p xs ≡ false → update p f xs ≡ xs
  update_none [] h = refl
  update_none (x ∷ xs) h = ground (arith, update_none xs)

  pub is_empty-update : (xs : List A) → is_empty (update p f xs) ≡ is_empty xs
  is_empty-update [] = refl
  is_empty-update (x ∷ xs) = refl

  pub any-update :
      (q : A → Bool) (xs : List A) → ((x : A) → q (f x) ≡ q x) → any q (update p f xs) ≡ any q xs
  any-update q [] h = refl
  any-update q (x ∷ xs) h = ground (arith, h x, any-update q xs h)

  pub select-update :
      (q : A → Bool) (xs : List A)
      → ((x : A) → q (f x) ≡ q x)
      → select q (update p f xs) ≡ update p f (select q xs)
  select-update q [] h = refl
  select-update q (x ∷ xs) h = ground (arith, h x, select-update q xs h)

  -- A row is found by a key that the update keeps, and may have been written.
  pub find-update :
      (q : A → Bool) (xs : List A) {b : A}
      → ((x : A) → q (f x) ≡ q x)
      → find q (update p f xs) ≡ some b
      → (a : A) × (find q xs ≡ some a) × (b ≡ (if p a then f a else a))
  find-update q [] h e = cc
  find-update q (x ∷ xs) {b} h e = elim (Bool-cases (q x)) [
    | inl hit ↦ (x, ground arith, ground (arith, h x))
    | inr miss ↦
        let (a, found, written) = find-update q xs {b = b} h (ground (arith, h x)) in
        (a, ground arith, written)
  ]

  pub find-update-some :
      (q : A → Bool) (xs : List A) {a : A}
      → ((x : A) → q (f x) ≡ q x)
      → find q xs ≡ some a
      → find q (update p f xs) ≡ some (if p a then f a else a)
  find-update-some q [] h e = cc
  find-update-some q (x ∷ xs) {a} h e = ground (arith, h x, find-update-some q xs {a = a} h)

module _ {ℓ} {A : Type ℓ} (p : A → Bool) where
  pub find-append : (xs ys : List A) {a : A} → find p xs ≡ some a → find p (xs ++ ys) ≡ some a
  find-append [] ys e = cc
  find-append (x ∷ xs) ys {a} e = ground (arith, find-append xs ys {a = a})

  pub find-append_none : (xs ys : List A) → find p xs ≡ none → find p (xs ++ ys) ≡ find p ys
  find-append_none [] ys e = refl
  find-append_none (x ∷ xs) ys e = ground (arith, find-append_none xs ys)

  pub find-any :
      (q : A → Bool) (xs : List A) (a : A) → find p xs ≡ some a → q a ≡ true → any q xs ≡ true
  find-any q [] a e h = cc
  find-any q (x ∷ xs) a e h = ground (arith, find-any q xs a)

  pub find-some-any : (xs : List A) (a : A) → find p xs ≡ some a → any p xs ≡ true
  find-some-any [] a e = cc
  find-some-any (x ∷ xs) a e = ground (arith, find-some-any xs a)

  -- A row that passes a narrower test is among those that pass the wider one.
  pub find-select :
      (q : A → Bool) (xs : List A)
      → ((x : A) → p x ≡ true → q x ≡ true)
      → find p (select q xs) ≡ find p xs
  find-select q [] h = refl
  find-select q (x ∷ xs) h = ground (arith, h x, find-select q xs h)

  pub any_weaken :
      (q : A → Bool) (xs : List A)
      → ((x : A) → p x ≡ true → q x ≡ true)
      → any p xs ≡ true
      → any q xs ≡ true
  any_weaken q [] h e = e
  any_weaken q (x ∷ xs) h e = ground (arith, h x, any_weaken q xs h)

  pub any-select : (q : A → Bool) (xs : List A) → any p (select q xs) ≡ any (λ x. p x && q x) xs
  any-select q [] = refl
  any-select q (x ∷ xs) = ground (arith, any-select q xs)

  pub any-select-false :
      (q : A → Bool) (xs : List A)
      → ((x : A) → q x ≡ true → p x ≡ false)
      → any p (select q xs) ≡ false
  any-select-false q [] h = refl
  any-select-false q (x ∷ xs) h = ground (arith, h x, any-select-false q xs h)

pub any-map {ℓ κ} :
    {A : Type ℓ} {B : Type κ} (p : B → Bool) (f : A → B) (xs : List A)
    → any p (map f xs) ≡ any (λ x. p (f x)) xs
any-map p f [] = refl
any-map p f (x ∷ xs) = ground (arith, any-map p f xs)

pub is_empty-map {ℓ κ} :
    {A : Type ℓ} {B : Type κ} (f : A → B) (xs : List A) → is_empty (map f xs) ≡ is_empty xs
is_empty-map f [] = refl
is_empty-map f (x ∷ xs) = refl

-- A test that every written row passes holds of some row afterwards if it did before.
pub any-update-true {ℓ} :
    {A : Type ℓ} (p : A → Bool) (f : A → A) (q : A → Bool) (xs : List A)
    → ((x : A) → q (f x) ≡ true)
    → any q xs ≡ true
    → any q (update p f xs) ≡ true
any-update-true p f q [] h e = e
any-update-true p f q (x ∷ xs) h e = ground (arith, h x, any-update-true p f q xs h)
