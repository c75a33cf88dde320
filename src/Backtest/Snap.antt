-- ===== src/Backtest/Snap.antt =====
-- `snapToCandle` finds a nearest candle.
use bbgo_sass.Prelude.{
  subst, ◌⊎◌, ℕ, zero, suc, ◌+◌, ◌-◌, ◌/◌, ◌≤◌, ◌<◌, ◌≡◌, refl, false, List, [], ◌∷◌, arith, some,
  ltb, leb, ◌==◌, if◌then◌else◌, length, get_or, Bool-cases, inl, inr,
}
use bbgo_sass.Prelude.Int.{pos, -ℤ_parts}
use bbgo_sass.Backtest.{snap_loop, previous, nearer, snap_to_candle}

infix 70 ◌!◌
abbrev pub ◌!◌ : List ℕ → ℕ → ℕ
times ! i = get_or times i 0

abbrev pub IsAscending : List ℕ → Type 0
IsAscending times = (i j : ℕ) → i ≤ j → j < length times → times ! i ≤ times ! j

abbrev pub distance : ℕ → ℕ → ℕ
distance a b = (a - b) + (b - a)

-- The place where the search ends: all times before it lie before the target, and its own does not,
-- unless it is the last one.
record Splits (times : List ℕ) (target lo hi : ℕ) : Type 0 where
  ordered : lo ≤ hi
  inside : hi < length times
  below : (i : ℕ) → i < lo → times ! i < target
  above : hi + 1 < length times → target ≤ times ! hi

module _ (times : List ℕ) (target : ℕ) (sorted : IsAscending times) where
  right_half :
      (lo hi : ℕ)
      → Splits times target lo hi
      → lo < hi
      → times ! ((lo + hi) / 2) < target
      → Splits times target ((lo + hi) / 2 + 1) hi
  right_half lo hi s h c = record {
    ordered = omega arith;
    inside = s.inside;
    below = λ i p. ground (arith, sorted i ((lo + hi) / 2), s.inside);
    above = s.above;
  }

  left_half :
      (lo hi : ℕ)
      → Splits times target lo hi
      → lo < hi
      → target ≤ times ! ((lo + hi) / 2)
      → Splits times target lo ((lo + hi) / 2)
  left_half lo hi s h c = record {
    ordered = omega arith;
    inside = ground (arith, s.inside);
    below = s.below;
    above = λ p. c;
  }

  -- The fuel covers the range, so the loop ends by its test.
  snap_loop-Splits :
      (fuel lo hi : ℕ)
      → hi - lo < fuel
      → Splits times target lo hi
      → let r = snap_loop fuel target times lo hi in Splits times target r r
  unfolding snap_loop
  snap_loop-Splits zero lo hi f s = elim f [ ]
  snap_loop-Splits (suc fuel) lo hi f s =
      let mid = (lo + hi) / 2 in
      elim (Bool-cases (ltb lo hi)) [
        | inr done ↦
            let same : hi ≡ lo = ground (arith, s.ordered) in
            rw done (subst (λ h. Splits times target lo h) same s)
        | inl more ↦ elim (Bool-cases (ltb (times ! mid) target)) [
          | inl before ↦
              rw (more, before)
                (snap_loop-Splits fuel (mid + 1) hi (ground arith)
                  (right_half lo hi s (ground arith) (ground arith)))
          | inr after ↦
              rw (more, after)
                (snap_loop-Splits fuel lo mid (ground arith)
                  (left_half lo hi s (ground arith) (ground arith)))
        ]
      ]

  place_after :
      (r : ℕ)
      → Splits times target r r
      → (i : ℕ) → i < length times
      → r ≤ i
      → distance target (times ! r) ≤ distance target (times ! i)
  place_after r s i h k = elim (Bool-cases (r == i)) [
    | inl same ↦ let eq : r ≡ i = ground arith in rw eq (omega arith)
    | inr other ↦ ground (arith, sorted r i, s.above)
  ]

  -- Of the places around the search's end the nearer one is nearest among all.
  nearest_end :
      (r : ℕ)
      → Splits times target r r
      → 0 < r
      → (i : ℕ) → i < length times
      → (distance target (times ! (r - 1)) ≤ distance target (times ! i))
        ⊎ (distance target (times ! r) ≤ distance target (times ! i))
  nearest_end r s p i h = elim (Bool-cases (ltb i r)) [
    | inl before ↦ inl (ground (arith, s.below i, s.below (r - 1), s.inside, sorted i (r - 1)))
    | inr after ↦ inr (place_after r s i h (ground arith))
  ]

-- Which of two times is taken.
nearer_choice :
    (target prev next : ℕ)
    → 0 < prev
    → prev < target
    → prev ≤ next
    → let r = nearer target (some prev) next in
      ((r ≡ prev) ⊎ (r ≡ next))
      × (distance target r ≤ distance target prev)
      × (distance target r ≤ distance target next)
unfolding nearer
nearer_choice target prev next p h k =
    ground (arith, -ℤ_parts (pos target) (pos prev), -ℤ_parts (pos next) (pos target))

-- One of the times, and none of them is nearer to the target.
abbrev pub IsNearest : List ℕ → ℕ → ℕ → Type 0
IsNearest times target r =
    ((i : ℕ) → i < length times → distance target r ≤ distance target (times ! i))
    × ((j : ℕ) × (j < length times) × (r ≡ times ! j))

module _ (times : List ℕ) (target : ℕ) (sorted : IsAscending times)
    (positive : (i : ℕ) → i < length times → 0 < times ! i) where
  at_first :
      (r : ℕ)
      → Splits times target r r
      → r ≡ 0
      → IsNearest times target (nearer target (previous times r) (times ! r))
  unfolding nearer previous
  at_first r s e = rw e (
    λ i h.
        place_after times target sorted 0 (subst (λ k. Splits times target k k) e s) i h
          (omega arith),
    (0, omega (arith, s.inside, e), refl),
  )

  between :
      (r : ℕ)
      → Splits times target r r
      → 0 < r
      → IsNearest times target (nearer target (some (times ! (r - 1))) (times ! r))
  between r s p =
      let prev = times ! (r - 1) in
      let next = times ! r in
      let (which, near_prev, near_next) =
        nearer_choice target prev next (positive (r - 1) (omega (arith, s.inside)))
          (s.below (r - 1) (omega arith)) (sorted (r - 1) r (omega arith) s.inside) in
      (
        λ i h. elim (nearest_end times target sorted r s p i h) [
          | inl a ↦ omega arith
          | inr a ↦ omega arith
        ],
        elim which [ inl a ↦ (r - 1, omega (arith, s.inside), a) | inr a ↦ (r, s.inside, a) ],
      )

  at_end :
      (r : ℕ)
      → Splits times target r r
      → IsNearest times target (
          if leb (length times) r
          then times ! (length times - 1)
          else nearer target (previous times r) (times ! r))
  unfolding previous
  at_end r s =
      let inside : leb (length times) r ≡ false = ground (arith, s.inside) in
      rw inside (elim (Bool-cases (ltb 0 r)) [
        | inl later ↦ rw later (between r s (ground arith))
        | inr first ↦ at_first r s (ground arith)
      ])

-- Of a nonempty list of positive times in ascending order `snapToCandle` finds one of them that is nearest
-- to the target, with no more rounds of its loop than there are times.
pub snap_to_candle-IsNearest :
    (target : ℕ) (times : List ℕ)
    → 0 < length times
    → IsAscending times
    → ((i : ℕ) → i < length times → 0 < times ! i)
    → IsNearest times target (snap_to_candle target times)
unfolding snap_to_candle
snap_to_candle-IsNearest target [] h sorted positive = elim h [ ]
snap_to_candle-IsNearest target (t ∷ ts) h sorted positive =
    let times = t ∷ ts in
    let r = snap_loop (length times) target times 0 (length times - 1) in
    let s : Splits times target r r =
      snap_loop-Splits times target sorted (length times) 0 (length times - 1) (omega arith)
        (record {
          ordered = omega arith;
          inside = omega arith;
          below = λ i p. absurd (omega arith);
          above = λ p. absurd (omega arith);
        }) in
    at_end times target sorted positive r s
