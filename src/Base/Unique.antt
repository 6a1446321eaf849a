-- ===== src/Base/Unique.antt =====
-- Lists without repetition, and the pigeonhole principle.
use Prim.Native.Nat.{suc, ◌≤◌}
use mathlib.Core.Path.{◌≡◌, refl, sym, ap, ◌∙◌, subst}
use mathlib.Core.Logic.{inl, inr, ◌≢◌}
use mathlib.Core.List.{List, [], ◌∷◌, ◌++◌}
use native.Mathlib.Omega.{arith}
use bdbackup.Base.Lists.{length, In, In-append_cases}

module _ {ℓ} {A : Type ℓ} where
  abbrev pub Unique : List A → Type ℓ
  Unique [] = Unit
  Unique (x ∷ xs) = (¬ In x xs) × Unique xs

  -- Taking one occurrence of an element out of a list.
  remove_one :
      (a : A) (ys : List A)
      → In a ys
      → (zs : List A) × (length ys ≡ suc (length zs)) × ((b : A) → b ≢ a → In b ys → In b zs)
  remove_one a [] m = elim m [ ]
  remove_one a (y ∷ ys) (inl e) = (ys, refl, λ b n m. other b n m)
    where
      other : (b : A) → b ≢ a → In b (y ∷ ys) → In b ys
      other b n (inl q) = absurd (n (sym q ∙ e))
      other b n (inr m) = m
  remove_one a (y ∷ ys) (inr m) =
      let (zs, size, keep) = remove_one a ys m in
      (y ∷ zs, ap suc size, λ b n k. elim k [ inl e ↦ inl e | inr r ↦ inr (keep b n r) ])

  pub length-le_of_Unique :
      (xs ys : List A) → Unique xs → ((a : A) → In a xs → In a ys) → length xs ≤ length ys
  length-le_of_Unique [] ys u f = omega arith
  length-le_of_Unique (x ∷ xs) ys u f =
      let (zs, size, keep) = remove_one x ys (f x (inl refl)) in
      let rest =
        length-le_of_Unique xs zs u.1
          (λ a m. keep a (λ e. u.0 (subst (λ b. In b xs) e m)) (f a (inr m))) in
      omega (arith, size, rest)

  pub Unique-snoc : (a : A) (xs : List A) → Unique xs → (¬ In a xs) → Unique (xs ++ (a ∷ []))
  Unique-snoc a [] u n = ((λ m. elim m [ ]), tt)
  Unique-snoc a (x ∷ xs) u n = (
    (λ m. elim (In-append_cases x xs (a ∷ []) m) [
      | inl k ↦ u.0 k
      | inr (inl e) ↦ n (inl (sym e))
      | inr (inr k) ↦ elim k [ ]
    ]),
    Unique-snoc a xs u.1 (λ m. n (inr m)),
  )
