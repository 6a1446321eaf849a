-- ===== src/Base/Sorting.antt =====
-- Python's `sorted` as a stable insertion sort; sorting keeps the elements.
use mathlib.Core.Path.{◌≡◌}
use mathlib.Core.Logic.{◌⊎◌, inl, inr}
use mathlib.Core.Bool.{Bool}
use mathlib.Core.List.{List, [], ◌∷◌}
use bdbackup.Base.Tests.{if◌then◌else◌, Bool-cases}
use bdbackup.Base.Lists.{In}

module _ {ℓ} {A : Type ℓ} (lt : A → A → Bool) where
  abbrev insert_by : A → List A → List A
  insert_by a [] = a ∷ []
  insert_by a (x ∷ xs) = let rest = insert_by a xs in if lt x a then x ∷ rest else a ∷ x ∷ xs

  unfoldable pub sort_by : List A → List A
  sort_by [] = []
  sort_by (x ∷ xs) = insert_by x (sort_by xs)

  In-insert_by : (a b : A) (xs : List A) → (b ≡ a) ⊎ In a xs → In a (insert_by b xs)
  In-insert_by a b [] (inl e) = inl e
  In-insert_by a b [] (inr m) = elim m [ ]
  In-insert_by a b (x ∷ xs) m = elim (Bool-cases (lt x b)) [
    | inl t ↦ rw t (below (In-insert_by a b xs) m)
    | inr t ↦ rw t m
  ]
    where
      below :
          ((b ≡ a) ⊎ In a xs → In a (insert_by b xs))
          → (b ≡ a) ⊎ In a (x ∷ xs)
          → (x ≡ a) ⊎ In a (insert_by b xs)
      below rest (inl e) = inr (rest (inl e))
      below rest (inr (inl e)) = inl e
      below rest (inr (inr r)) = inr (rest (inr r))

  pub In-sort_by : (a : A) (xs : List A) → In a xs → In a (sort_by xs)
  unfolding sort_by
  In-sort_by a [] m = m
  In-sort_by a (x ∷ xs) (inl e) = In-insert_by a x (sort_by xs) (inl e)
  In-sort_by a (x ∷ xs) (inr m) = In-insert_by a x (sort_by xs) (inr (In-sort_by a xs m))

  insert_by-In : (a b : A) (xs : List A) → In a (insert_by b xs) → (b ≡ a) ⊎ In a xs
  insert_by-In a b [] m = m
  insert_by-In a b (x ∷ xs) m = elim (Bool-cases (lt x b)) [
    | inl t ↦ below (insert_by-In a b xs) (rw t at m)
    | inr t ↦ rw t at m
  ]
    where
      below :
          (In a (insert_by b xs) → (b ≡ a) ⊎ In a xs)
          → (x ≡ a) ⊎ In a (insert_by b xs)
          → (b ≡ a) ⊎ In a (x ∷ xs)
      below rest (inl e) = inr (inl e)
      below rest (inr r) = elim (rest r) [ inl e ↦ inl e | inr k ↦ inr (inr k) ]

  pub sort_by-In : (a : A) (xs : List A) → In a (sort_by xs) → In a xs
  unfolding sort_by
  sort_by-In a [] m = m
  sort_by-In a (x ∷ xs) m = elim (insert_by-In a x (sort_by xs) m) [
    | inl e ↦ inl e
    | inr k ↦ inr (sort_by-In a xs k)
  ]
