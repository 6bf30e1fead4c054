-- ===== src/Media/Sets.antt =====
-- The standard library's `HashSet<T>` and `HashMap<K, V>` with numbers as keys: a list without
-- duplicates, and a function.
use kinugasa_recording.Shared.{
  ℕ, ◌≡◌, refl, Bool, not, ◌&&◌, ◌||◌, Option, none, some, List, [], ◌∷◌, ◌==◌, if◌then◌else◌, any,
  select, arith, Bool-cases, inl, inr, eq_of_==,
}

abbrev pub member : ℕ → List ℕ → Bool
member x xs = any (λ y. y == x) xs

abbrev pub add : ℕ → List ℕ → List ℕ
add x xs = if member x xs then xs else x ∷ xs

-- `HashSet::extend`
abbrev pub extend : List ℕ → List ℕ → List ℕ
extend [] xs = xs
extend (y ∷ ys) xs = add y (extend ys xs)

abbrev pub discard : ℕ → List ℕ → List ℕ
discard x xs = select (λ y. not (y == x)) xs

abbrev pub discard_all : List ℕ → List ℕ → List ℕ
discard_all ys xs = select (λ x. not (member x ys)) xs

abbrev pub Map : Type 0 → Type 0
Map V = ℕ → Option V

abbrev pub put : {V : Type 0} → ℕ → V → Map V → Map V
put k v m = λ x. if x == k then some v else m x

abbrev pub drop : {V : Type 0} → ℕ → Map V → Map V
drop k m = λ x. if x == k then none else m x

pub member-add : (x y : ℕ) (xs : List ℕ) → member x (add y xs) ≡ (y == x || member x xs)
member-add x y xs = ground arith

pub member-extend :
    (x : ℕ) (ys xs : List ℕ) → member x (extend ys xs) ≡ (member x ys || member x xs)
member-extend x [] xs = refl
member-extend x (y ∷ ys) xs = ground (arith, member-extend x ys xs, member-add x y (extend ys xs))

pub member-discard :
    (x y : ℕ) (xs : List ℕ) → member x (discard y xs) ≡ (not (y == x) && member x xs)
member-discard x y [] = ground arith
member-discard x y (z ∷ xs) = ground (arith, member-discard x y xs)

pub member-discard_all :
    (x : ℕ) (ys xs : List ℕ) → member x (discard_all ys xs) ≡ (not (member x ys) && member x xs)
member-discard_all x ys [] = ground arith
member-discard_all x ys (z ∷ xs) = elim (Bool-cases (z == x)) [
  | inl hit ↦
      let same : z ≡ x = eq_of_== z x hit in ground (arith, same, member-discard_all x ys xs)
  | inr miss ↦ ground (arith, miss, member-discard_all x ys xs)
]
