-- ===== src/Prelude/Sort.antt =====
-- `Array.prototype.sort` with a comparator: a stable sort. `le a b` says that the comparator does not
-- put `b` strictly before `a`.
use mathlib.Core.List.Perm
use bbgo_sass.Prelude.{
  ◌≡◌, refl, inl, inr, Bool, true, false, List, [], ◌∷◌, Perm, arith, All, Any, IsDistinct, ◌⊎◌,
  ◌≢◌, sym, if◌then◌else◌, Bool-cases, length, suc, map, ap, ◌∙◌,
}

module _ {ℓ} {A : Type ℓ} (le : A → A → Bool) where
  unfoldable pub insert_sorted : A → List A → List A
  insert_sorted x [] = x ∷ []
  insert_sorted x (y ∷ ys) = if le x y then x ∷ y ∷ ys else y ∷ insert_sorted x ys

  unfoldable pub sort : List A → List A
  unfolding insert_sorted
  sort [] = []
  sort (x ∷ xs) = insert_sorted x (sort xs)

  -- Every member stands before those that the comparator puts after it.
  abbrev pub IsSorted : List A → Type ℓ
  IsSorted [] = Unit
  IsSorted (x ∷ xs) = All (λ y. le x y ≡ true) xs × IsSorted xs

  insert_sorted-perm : (x : A) (xs : List A) → Perm (insert_sorted x xs) (x ∷ xs)
  unfolding insert_sorted
  insert_sorted-perm x [] = Perm.refl (x ∷ [])
  insert_sorted-perm x (y ∷ ys) = elim (Bool-cases (le x y)) [
    | inl e ↦ rw e (Perm.refl _)
    | inr e ↦ rw e (Perm.trans (Perm.cons y (insert_sorted-perm x ys)) (Perm.swap x y ys))
  ]

  pub sort-perm : (xs : List A) → Perm (sort xs) xs
  unfolding sort
  sort-perm [] = Perm.refl []
  sort-perm (x ∷ xs) = Perm.trans (insert_sorted-perm x (sort xs)) (Perm.cons x (sort-perm xs))

  module _ {κ} (P : A → Type κ) where
    insert_sorted-All : (x : A) (xs : List A) → P x → All P xs → All P (insert_sorted x xs)
    unfolding insert_sorted
    insert_sorted-All x [] p h = (p, tt)
    insert_sorted-All x (y ∷ ys) p h = elim (Bool-cases (le x y)) [
      | inl e ↦ rw e (p, h)
      | inr e ↦ rw e (h.0, insert_sorted-All x ys p h.1)
    ]

    pub sort-All : (xs : List A) → All P xs → All P (sort xs)
    unfolding sort
    sort-All [] h = tt
    sort-All (x ∷ xs) h = insert_sorted-All x (sort xs) h.0 (sort-All xs h.1)

  module _ (P : A → Type 0) where
    insert_sorted-Any : (x : A) (xs : List A) → P x ⊎ Any P xs → Any P (insert_sorted x xs)
    unfolding insert_sorted
    insert_sorted-Any x [] h = h
    insert_sorted-Any x (y ∷ ys) (inl p) = elim (Bool-cases (le x y)) [
      | inl e ↦ rw e (inl p)
      | inr e ↦ rw e (inr (insert_sorted-Any x ys (inl p)))
    ]
    insert_sorted-Any x (y ∷ ys) (inr (inl q)) = elim (Bool-cases (le x y)) [
      | inl e ↦ rw e (inr (inl q))
      | inr e ↦ rw e (inl q)
    ]
    insert_sorted-Any x (y ∷ ys) (inr (inr h)) = elim (Bool-cases (le x y)) [
      | inl e ↦ rw e (inr (inr h))
      | inr e ↦ rw e (inr (insert_sorted-Any x ys (inr h)))
    ]

    pub sort-Any : (xs : List A) → Any P xs → Any P (sort xs)
    unfolding sort
    sort-Any [] h = h
    sort-Any (x ∷ xs) (inl p) = insert_sorted-Any x (sort xs) (inl p)
    sort-Any (x ∷ xs) (inr h) = insert_sorted-Any x (sort xs) (inr (sort-Any xs h))

  insert_sorted-IsDistinct :
      (x : A) (xs : List A) → All (λ y. x ≢ y) xs → IsDistinct xs → IsDistinct (insert_sorted x xs)
  unfolding insert_sorted
  insert_sorted-IsDistinct x [] a d = (tt, tt)
  insert_sorted-IsDistinct x (y ∷ ys) a d = elim (Bool-cases (le x y)) [
    | inl e ↦ rw e (a, d)
    | inr e ↦ rw e (
      insert_sorted-All (λ z. y ≢ z) x ys (λ p. a.0 (sym p)) d.0,
      insert_sorted-IsDistinct x ys a.1 d.1,
    )
  ]

  pub sort-IsDistinct : (xs : List A) → IsDistinct xs → IsDistinct (sort xs)
  unfolding sort
  sort-IsDistinct [] d = tt
  sort-IsDistinct (x ∷ xs) d =
      insert_sorted-IsDistinct x (sort xs) (sort-All (λ y. x ≢ y) xs d.0) (sort-IsDistinct xs d.1)

  length-insert_sorted : (x : A) (xs : List A) → length (insert_sorted x xs) ≡ suc (length xs)
  unfolding insert_sorted
  length-insert_sorted x [] = refl
  length-insert_sorted x (y ∷ ys) = ground (arith, length-insert_sorted x ys)

  pub length-sort : (xs : List A) → length (sort xs) ≡ length xs
  unfolding sort
  length-sort [] = refl
  length-sort (x ∷ xs) = omega (arith, length-insert_sorted x (sort xs), length-sort xs)

  module _ (total : (a b : A) → le a b ≡ false → le b a ≡ true)
      (trans : (a b c : A) → le a b ≡ true → le b c ≡ true → le a c ≡ true) where
    le_all :
        (x y : A) (ys : List A)
        → le x y ≡ true
        → All (λ z. le y z ≡ true) ys
        → All (λ z. le x z ≡ true) ys
    le_all x y [] e h = tt
    le_all x y (z ∷ zs) e h = (trans x y z e h.0, le_all x y zs e h.1)

    insert_sorted-IsSorted : (x : A) (xs : List A) → IsSorted xs → IsSorted (insert_sorted x xs)
    unfolding insert_sorted
    insert_sorted-IsSorted x [] s = (tt, tt)
    insert_sorted-IsSorted x (y ∷ ys) s = elim (Bool-cases (le x y)) [
      | inl e ↦ rw e ((e, le_all x y ys e s.0), s)
      | inr e ↦ rw e (
        insert_sorted-All (λ z. le y z ≡ true) x ys (total x y e) s.0,
        insert_sorted-IsSorted x ys s.1,
      )
    ]

    pub sort-IsSorted : (xs : List A) → IsSorted (sort xs)
    unfolding sort
    sort-IsSorted [] = tt
    sort-IsSorted (x ∷ xs) = insert_sorted-IsSorted x (sort xs) (sort-IsSorted xs)

-- Sorting the images, by an order that agrees, gives the images of the sorted list.
module _ {ℓ κ} {A : Type ℓ} {B : Type κ} (le : A → A → Bool) (le' : B → B → Bool) (f : A → B)
    (agree : (a b : A) → le' (f a) (f b) ≡ le a b) where
  insert_sorted-map :
      (x : A) (xs : List A) → insert_sorted le' (f x) (map f xs) ≡ map f (insert_sorted le x xs)
  unfolding insert_sorted
  insert_sorted-map x [] = refl
  insert_sorted-map x (y ∷ ys) = elim (Bool-cases (le x y)) [
    | inl e ↦ let same : le' (f x) (f y) ≡ true = agree x y ∙ e in rw (e, same)
    | inr e ↦
        let same : le' (f x) (f y) ≡ false = agree x y ∙ e in
        rw (e, same) (ap (λ zs. f y ∷ zs) (insert_sorted-map x ys))
  ]

  pub sort-map : (xs : List A) → sort le' (map f xs) ≡ map f (sort le xs)
  unfolding sort
  sort-map [] = refl
  sort-map (x ∷ xs) = ap (insert_sorted le' (f x)) (sort-map xs) ∙ insert_sorted-map x (sort le xs)
