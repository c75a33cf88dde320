-- ===== src/StrategyState/Grid.antt =====
-- The lines of a grid, of web/src/lib/bbgo/strategy-state.ts.
use bbgo_sass.Prelude.{
  ℕ, zero, suc, ◌+◌, ◌*◌, ◌/◌, ◌≤◌, ◌<◌, ◌≡◌, refl, List, Option, none, some, arith, ap, ◌∙◌,
  length, get_elem?, sym, subst, false, ◌==◌,
}
use bbgo_sass.Prelude.Int.{ℤ, pos, negsuc, ◌+ℤ◌, ◌-ℤ◌, ◌*ℤ◌, pos_part, neg_part, int_laws, parts_of}
use bbgo_sass.Prelude.Text.{codes}
use bbgo_sass.Numbers.{is_zero}
use bbgo_sass.Strategies.{number, object, Entries, value_at}
use bbgo_sass.StrategyState.{
  GridLine, grid_line, lines_from, lines_of, price_of, unit, extract_grid_lines,
}

module _ (upper lower : ℤ) (grids : ℕ) (current : Option ℤ) where
  length-lines_from : (i left : ℕ) → length (lines_from upper lower grids current i left) ≡ left
  unfolding lines_from
  length-lines_from i zero = refl
  length-lines_from i (suc left) = ap suc (length-lines_from (suc i) left)

  lines_from-at :
      (i left j : ℕ)
      → j < left
      → get_elem? (lines_from upper lower grids current i left) j
        ≡ some (grid_line upper lower grids current (i + j))
  unfolding lines_from
  lines_from-at i zero j h = absurd (omega arith)
  lines_from-at i (suc left) zero h =
      ap (λ k. some (grid_line upper lower grids current k)) (omega arith)
  lines_from-at i (suc left) (suc j) h =
      lines_from-at (suc i) left j (omega arith)
      ∙ ap (λ k. some (grid_line upper lower grids current k)) (omega arith)

-- The parts of a product with a number that is not negative.
mul_parts :
    (a : ℤ) (n : ℕ)
    → (pos_part (a *ℤ pos n) ≡ pos_part a * n) × (neg_part (a *ℤ pos n) ≡ neg_part a * n)
unfolding ◌*ℤ◌
mul_parts (pos m) n = grind arith
mul_parts (negsuc m) n = grind arith

times_next : (a : ℤ) (i : ℕ) → a *ℤ pos (suc i) ≡ a *ℤ pos i +ℤ a
times_next a i =
    let next : (pos_part a * suc i ≡ pos_part a * i + pos_part a)
        × (neg_part a * suc i ≡ neg_part a * i + neg_part a) =
      (grind arith, grind arith) in
    omega (int_laws, mul_parts a (suc i), mul_parts a i, next)

times_zero : (a : ℤ) → a *ℤ pos 0 ≡ pos 0
times_zero a =
    let none_left : (pos_part a * 0 ≡ 0) × (neg_part a * 0 ≡ 0) = (grind arith, grind arith) in
    omega (int_laws, mul_parts a 0, none_left)

times_minus : (a b : ℤ) (n : ℕ) → b *ℤ pos n +ℤ (a -ℤ b) *ℤ pos n ≡ a *ℤ pos n
times_minus a b zero =
    omega
      (int_laws, parts_of (times_zero a), parts_of (times_zero b), parts_of (times_zero (a -ℤ b)))
times_minus a b (suc n) = omega (
  int_laws,
  parts_of (times_minus a b n),
  parts_of (times_next a n),
  parts_of (times_next b n),
  parts_of (times_next (a -ℤ b) n),
)

times_sum : (a : ℤ) (i j : ℕ) → a *ℤ pos (i + j) ≡ a *ℤ pos i +ℤ a *ℤ pos j
times_sum a i j =
    let both : (pos_part a * (i + j) ≡ pos_part a * i + pos_part a * j)
        × (neg_part a * (i + j) ≡ neg_part a * i + neg_part a * j) =
      (grind arith, grind arith) in
    omega (int_laws, mul_parts a (i + j), mul_parts a i, mul_parts a j, both)

-- The price of a line, times the number of grids.
abbrev pub price_at : List GridLine → ℕ → Option ℤ
price_at lines i = elim (get_elem? lines i) [ none ↦ none | some l ↦ some l.price ]

-- A strategy state with the grid's two bounds and its number, none of them 0.
pub record HasGrid (state : Entries) (upper lower : ℤ) (grids : ℕ) : Type 0 where
  pub grid2 : Entries
  pub found : value_at (codes "grid2") state ≡ object grid2
  pub upper_price : value_at (codes "upperPrice") grid2 ≡ number upper
  pub lower_price : value_at (codes "lowerPrice") grid2 ≡ number lower
  pub grid_number : value_at (codes "gridNumber") grid2 ≡ number (pos grids)
  pub has_upper : is_zero upper ≡ false
  pub has_lower : is_zero lower ≡ false
  pub has_grids : 0 < grids

extract_grid_lines-HasGrid :
    (state : Entries) (upper lower : ℤ) (grids : ℕ) (current : Option ℤ)
    → HasGrid state upper lower grids
    → extract_grid_lines state current ≡ lines_from upper lower grids current 0 (grids / unit + 1)
unfolding extract_grid_lines lines_of
extract_grid_lines-HasGrid state upper lower grids current h =
    let some_grids : (grids == 0) ≡ false = ground (arith, h.has_grids) in
    rw (h.found, h.upper_price, h.lower_price, h.grid_number, h.has_upper, h.has_lower, some_grids)

module _ (upper lower : ℤ) (grids : ℕ) where
  -- What the lines of a grid are.
  abbrev pub AreSpaced : List GridLine → Type 0
  AreSpaced lines =
      (length lines ≡ grids / unit + 1)
      × (price_at lines 0 ≡ some (lower *ℤ pos grids))
      × ((n : ℕ) → grids ≡ n * unit → price_at lines n ≡ some (upper *ℤ pos grids))
      × ((j : ℕ)
          → j < grids / unit
          → (p : ℤ) × ((price_at lines j ≡ some p)
              × (price_at lines (suc j) ≡ some (p +ℤ (upper -ℤ lower) *ℤ pos unit))))

module _ (upper lower : ℤ) (grids : ℕ) (current : Option ℤ) where
  abbrev all_lines : List GridLine
  all_lines = lines_from upper lower grids current 0 (grids / unit + 1)

  price_at-line :
      (j : ℕ) → j ≤ grids / unit → price_at all_lines j ≡ some (price_of upper lower grids j)
  unfolding grid_line
  price_at-line j h =
      let from_zero : 0 + j ≡ j = omega arith in
      ap (λ o. elim o as (λ x. Option ℤ) [ none ↦ none | some l ↦ some l.price ])
        (lines_from-at upper lower grids current 0 (grids / unit + 1) j (omega arith)
          ∙ ap (λ k. some (grid_line upper lower grids current k)) from_zero)

  last_price : (n : ℕ) → grids ≡ n * unit → price_of upper lower grids n ≡ upper *ℤ pos grids
  last_price n e =
      ap (λ k. lower *ℤ pos grids +ℤ (upper -ℤ lower) *ℤ pos k) (sym e)
      ∙ times_minus upper lower grids

  next_price :
      (j : ℕ)
      → price_of upper lower grids (suc j)
        ≡ price_of upper lower grids j +ℤ (upper -ℤ lower) *ℤ pos unit
  next_price j =
      let place : suc j * unit ≡ j * unit + unit = omega arith in
      ap (λ k. lower *ℤ pos grids +ℤ (upper -ℤ lower) *ℤ pos k) place
      ∙ omega (int_laws, parts_of (times_sum (upper -ℤ lower) (j * unit) unit))

  all_lines-AreSpaced : AreSpaced upper lower grids all_lines
  all_lines-AreSpaced = (
    length-lines_from upper lower grids current 0 (grids / unit + 1),
    price_at-line 0 (omega arith)
        ∙ ap some (omega (int_laws, parts_of (times_zero (upper -ℤ lower)))),
    λ n e. price_at-line n (omega (arith, e)) ∙ ap some (last_price n e),
    λ j h. (
      price_of upper lower grids j,
      (price_at-line j (omega arith), price_at-line (suc j) (omega arith) ∙ ap some (next_price j)),
    ),
  )

-- Of a state with a grid whose bounds are not 0 and whose number is positive, `extractGridLines` gives one
-- line more than the whole steps in the number. The first one lies at the lower bound, the last one at the
-- upper bound if the number is whole, and each line lies by one and the same step from the one before. A
-- price is meant as the quotient by the number, so nothing is rounded.
pub extract_grid_lines-AreSpaced :
    (state : Entries) (upper lower : ℤ) (grids : ℕ) (current : Option ℤ)
    → HasGrid state upper lower grids
    → AreSpaced upper lower grids (extract_grid_lines state current)
extract_grid_lines-AreSpaced state upper lower grids current h =
    subst (AreSpaced upper lower grids)
      (sym (extract_grid_lines-HasGrid state upper lower grids current h))
      (all_lines-AreSpaced upper lower grids current)
