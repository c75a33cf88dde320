-- ===== src/Prelude/SumBy.antt =====
-- Sums of integers over a list, which no sorting changes.
use bbgo_sass.Prelude.{◌++◌, ◌≡◌, refl, Bool, List, [], ◌∷◌, Bool-cases, inl, inr}
use bbgo_sass.Prelude.Int.{ℤ, pos, ◌+ℤ◌, int_laws, parts_of}
use bbgo_sass.Prelude.Sort.{sort, insert_sorted}

module _ {ℓ} {A : Type ℓ} (f : A → ℤ) where
  unfoldable pub sum_by : List A → ℤ
  sum_by [] = pos 0
  sum_by (x ∷ xs) = f x +ℤ sum_by xs

  sum_by-insert_sorted :
      (le : A → A → Bool) (x : A) (xs : List A) → sum_by (insert_sorted le x xs) ≡ f x +ℤ sum_by xs
  unfolding sum_by insert_sorted
  sum_by-insert_sorted le x [] = refl
  sum_by-insert_sorted le x (y ∷ ys) = elim (Bool-cases (le x y)) [
    | inl e ↦ rw e
    | inr e ↦ rw e (omega (int_laws, parts_of (sum_by-insert_sorted le x ys)))
  ]

  pub sum_by-sort : (le : A → A → Bool) (xs : List A) → sum_by (sort le xs) ≡ sum_by xs
  unfolding sum_by sort
  sum_by-sort le [] = refl
  sum_by-sort le (x ∷ xs) =
      omega
        (int_laws, parts_of (sum_by-insert_sorted le x (sort le xs)), parts_of (sum_by-sort le xs))

  pub sum_by-append : (xs ys : List A) → sum_by (xs ++ ys) ≡ sum_by xs +ℤ sum_by ys
  unfolding sum_by
  sum_by-append [] ys = omega int_laws
  sum_by-append (x ∷ xs) ys = omega (int_laws, parts_of (sum_by-append xs ys))
