-- ===== src/Base/Sorting.antt =====
-- The stable sort of Rust's standard library, by a test that an element may stand before another.
use mathlib.Core.Bool.{Bool, true, false}
use mathlib.Core.List.{List, [], ◌∷◌}
use mathlib.Core.Logic.{inl, inr}
use mathlib.Core.Path.{◌≡◌}
use system_pilot.Base.Lists.{All}
use system_pilot.Base.Tests.{if◌then◌else◌, Bool-cases}

module _ {A : Type 0} (before : A → A → Bool) where
  unfoldable pub insert_before : A → List A → List A
  insert_before x [] = x ∷ []
  insert_before x (y ∷ ys) =
      let rest = insert_before x ys in if before x y then x ∷ (y ∷ ys) else y ∷ rest

  -- `sort_by_key`.
  unfoldable pub sort : List A → List A
  unfolding insert_before
  sort [] = []
  sort (x ∷ xs) = insert_before x (sort xs)

  -- Every element may stand before all behind it.
  abbrev pub IsSorted : List A → Type 0
  IsSorted [] = Unit
  IsSorted (x ∷ xs) = All (λ y. before x y ≡ true) xs × IsSorted xs

  module _ (total : (x y : A) → before x y ≡ false → before y x ≡ true)
      (trans : (x y z : A) → before x y ≡ true → before y z ≡ true → before x z ≡ true) where
    All-trans :
        (x y : A) (ys : List A)
        → before x y ≡ true
        → All (λ z. before y z ≡ true) ys
        → All (λ z. before x z ≡ true) ys
    All-trans x y [] h a = tt
    All-trans x y (z ∷ ys) h a = (trans x y z h a.0, All-trans x y ys h a.1)

    insert_before-All :
        (w x : A) (ys : List A)
        → before w x ≡ true
        → All (λ z. before w z ≡ true) ys
        → All (λ z. before w z ≡ true) (insert_before x ys)
    unfolding insert_before
    insert_before-All w x [] h a = (h, tt)
    insert_before-All w x (y ∷ ys) h a = elim (Bool-cases (before x y)) [
      | inl t ↦ rw t (h, a)
      | inr f ↦ rw f (a.0, insert_before-All w x ys h a.1)
    ]

    insert_before-IsSorted : (x : A) (ys : List A) → IsSorted ys → IsSorted (insert_before x ys)
    unfolding insert_before
    insert_before-IsSorted x [] s = (tt, tt)
    insert_before-IsSorted x (y ∷ ys) s = elim (Bool-cases (before x y)) [
      | inl t ↦ rw t ((t, All-trans x y ys t s.0), s)
      | inr f ↦ rw f (insert_before-All y x ys (total x y f) s.0, insert_before-IsSorted x ys s.1)
    ]

    pub sort-IsSorted : (xs : List A) → IsSorted (sort xs)
    unfolding sort
    sort-IsSorted [] = tt
    sort-IsSorted (x ∷ xs) = insert_before-IsSorted x (sort xs) (sort-IsSorted xs)
