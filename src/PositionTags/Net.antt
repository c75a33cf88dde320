-- ===== src/PositionTags/Net.antt =====
-- Each trade's entry against the net position of the trades taken before it.
use bbgo_sass.Prelude.{
  ℕ, zero, suc, ◌<◌, ◌≡◌, ◌≢◌, inl, inr, refl, List, [], ◌∷◌, ◌++◌, Option, none, some, arith, All,
  All-at, All-init, ◌∙◌, Any, IsDistinct, length, get_elem?, set, replicate, length-set,
  length-replicate, get_elem?-set_self, get_elem?-set_ne, sym, ap, Option-cases, subst,
}
use bbgo_sass.Prelude.Int.{ℤ, ◌+ℤ◌}
use bbgo_sass.Numbers.{zero_ℤ}
use bbgo_sass.Trade.{Side}
use bbgo_sass.PositionTags.{
  Trade, signed, sorted_indices, tag_loop, compute_tags, position_tag, compute_position_tags,
  futures_position_tag, compute_futures_position_tags,
}
use bbgo_sass.PositionTags.Order.{sorted_indices-All, sorted_indices-Any, sorted_indices-IsDistinct}

-- The net position after the trades of some indices.
unfoldable pub net_of : List Trade → ℤ → List ℕ → ℤ
net_of ts net [] = net
net_of ts net (i ∷ is) = elim (get_elem? ts i) [
  | none ↦ net
  | some t ↦ net_of ts (net +ℤ signed t.side t.quantity) is
]

module _ {ℓ} {A : Type ℓ} where
  get_elem?_at : (xs : List A) (i : ℕ) → i < length xs → (x : A) × (get_elem? xs i ≡ some x)
  get_elem?_at [] i h = absurd (omega arith)
  get_elem?_at (x ∷ xs) zero h = (x, refl)
  get_elem?_at (x ∷ xs) (suc i) h = get_elem?_at xs i (omega arith)

  -- Behind a member of a list without repetitions stand others.
  IsDistinct-after :
      (js : List A) (i : A) (ks : List A) → IsDistinct (js ++ (i ∷ ks)) → All (λ k. i ≢ k) ks
  IsDistinct-after [] i ks d = d.0
  IsDistinct-after (j ∷ js) i ks d = IsDistinct-after js i ks d.1

Any-split :
    (i : ℕ) (xs : List ℕ)
    → Any (λ k. k ≡ i) xs
    → (js : List ℕ) × (ks : List ℕ) × (xs ≡ js ++ (i ∷ ks))
Any-split i [] h = elim h [ ]
Any-split i (x ∷ xs) (inl e) = ([], xs, ap (λ k. k ∷ xs) e)
Any-split i (x ∷ xs) (inr h) = let (js, ks, e) = Any-split i xs h in (x ∷ js, ks, ap (◌∷◌ x) e)

module _ {ℓ} {T : Type ℓ} (entry : Side → (qty prev net : ℤ) → T) (ts : List Trade) where
  tag_loop-after :
      (i : ℕ) (ks : List ℕ) (net : ℤ) (tags : List (Option T))
      → All (λ k. i ≢ k) ks
      → get_elem? (tag_loop entry ts ks net tags) i ≡ get_elem? tags i
  unfolding tag_loop
  tag_loop-after i [] net tags d = refl
  tag_loop-after i (k ∷ ks) net tags d = elim (Option-cases (get_elem? ts k)) [
    | inl e ↦ rw (e, tag_loop)
    | inr (t, e) ↦
        rw (e, tag_loop)
          (rw (tag_loop-after i ks _ (set tags k _) d.1)
            (get_elem?-set_ne tags _ (λ p. d.0 (sym p))))
  ]

  -- The entry that the loop stores for the trade `i`.
  tag_loop-at :
      (js : List ℕ) (i : ℕ) (ks : List ℕ) (t : Trade) (net : ℤ) (tags : List (Option T))
      → get_elem? ts i ≡ some t
      → All (λ k. k < length ts) js
      → All (λ k. i ≢ k) ks
      → i < length tags
      → let qty = signed t.side t.quantity in
        let prev = net_of ts net js in
        get_elem? (tag_loop entry ts (js ++ (i ∷ ks)) net tags) i
        ≡ some (some (entry t.side qty prev (prev +ℤ qty)))
  unfolding tag_loop net_of
  tag_loop-at [] i ks t net tags e inside after h =
      rw (e, tag_loop)
        (rw (tag_loop-after i ks _ (set tags i _) after) (get_elem?-set_self tags i _ h))
  tag_loop-at (j ∷ js) i ks t net tags e inside after h =
      let (u, eu) = get_elem?_at ts j inside.0 in
      rw (eu, tag_loop, net_of)
        (tag_loop-at js i ks t _ (set tags j _) e inside.1 after (omega (arith, length-set tags j)))

  -- A trade's entry, by the place `js ++ i ∷ ks` of its index in the order in which they are taken.
  compute_tags-at :
      (js : List ℕ) (i : ℕ) (ks : List ℕ) (t : Trade)
      → sorted_indices ts ≡ js ++ (i ∷ ks)
      → get_elem? ts i ≡ some t
      → let qty = signed t.side t.quantity in
        let prev = net_of ts zero_ℤ js in
        get_elem? (compute_tags entry ts) i ≡ some (some (entry t.side qty prev (prev +ℤ qty)))
  unfolding compute_tags
  compute_tags-at js i ks t order e =
      let places = λ (is : List ℕ). All (λ k. k < length ts) is in
      let inside : All (λ k. k < length ts) (js ++ (i ∷ ks)) =
        subst places order (sorted_indices-All ts) in
      let distinct : IsDistinct (js ++ (i ∷ ks)) =
        subst IsDistinct order (sorted_indices-IsDistinct ts) in
      rw order (
        tag_loop-at js i ks t zero_ℤ (replicate (length ts) none) e (All-init _ js (i ∷ ks) inside)
          (IsDistinct-after js i ks distinct)
          (omega (
            arith,
            length-replicate {ℓ} {A = Option T} (length ts) none,
            All-at (λ k. k < length ts) js i ks inside,
          )))

  length-tag_loop :
      (is : List ℕ) (net : ℤ) (tags : List (Option T))
      → length (tag_loop entry ts is net tags) ≡ length tags
  unfolding tag_loop
  length-tag_loop [] net tags = refl
  length-tag_loop (i ∷ is) net tags = elim (Option-cases (get_elem? ts i)) [
    | inl e ↦ rw (e, tag_loop)
    | inr (t, e) ↦ rw (e, tag_loop) (rw (length-tag_loop is) (length-set tags i _))
  ]

  length-compute_tags : length (compute_tags entry ts) ≡ length ts
  unfolding compute_tags
  length-compute_tags =
      length-tag_loop (sorted_indices ts) zero_ℤ (replicate (length ts) none)
      ∙ length-replicate (length ts) none

  -- What the two functions return for the trade `i`: the trades `js` are taken before it, in the order
  -- of `sorted_indices`, and the entry is that of a trade that moves on from their net position.
  abbrev pub HasEntry : List (Option T) → ℕ → Type ℓ
  HasEntry tags i =
      (js : List ℕ) × (ks : List ℕ) × (t : Trade) × (sorted_indices ts ≡ js ++ (i ∷ ks))
      × (get_elem? ts i ≡ some t)
      × (get_elem? tags i
          ≡ some (
              some (
                entry t.side (signed t.side t.quantity) (net_of ts zero_ℤ js)
                  (net_of ts zero_ℤ js +ℤ signed t.side t.quantity))))

  pub compute_tags-HasEntry :
      (i : ℕ)
      → i < length ts
      → (length (compute_tags entry ts) ≡ length ts) × HasEntry (compute_tags entry ts) i
  unfolding compute_tags
  compute_tags-HasEntry i h =
      let (js, ks, order) = Any-split i (sorted_indices ts) (sorted_indices-Any ts i h) in
      let (t, e) = get_elem?_at ts i h in
      (length-compute_tags, (js, ks, t, order, e, compute_tags-at js i ks t order e))

pub length-compute_position_tags : (ts : List Trade) → length (compute_position_tags ts) ≡ length ts
unfolding compute_position_tags
length-compute_position_tags [] = refl
length-compute_position_tags (t ∷ ts) = length-compute_tags position_tag (t ∷ ts)

pub length-compute_futures_position_tags :
    (ts : List Trade) → length (compute_futures_position_tags ts) ≡ length ts
unfolding compute_futures_position_tags
length-compute_futures_position_tags [] = refl
length-compute_futures_position_tags (t ∷ ts) = length-compute_tags futures_position_tag (t ∷ ts)
