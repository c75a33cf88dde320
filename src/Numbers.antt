-- ===== src/Numbers.antt =====
-- JavaScript numbers as exact decimals: a whole number of a unit that the component fixes. Rounding to
-- 53 bits, NaN and infinities are not part of it.
use bbgo_sass.Prelude.{Bool, true, false, ltb, ◌==◌, ℕ, ◌+◌, ◌*◌, ◌/◌, ◌<◌, ◌≤◌, arith}
use bbgo_sass.Prelude.Int.{ℤ, pos, negsuc, ◌+ℤ◌, +ℤ_parts, pos_part, neg_part}

abbrev pub zero_ℤ : ℤ
zero_ℤ = pos 0

-- `Math.floor` of a quotient.
unfoldable pub floor_div : ℤ → ℕ → ℤ
floor_div (pos n) d = pos (n / d)
floor_div (negsuc n) d = negsuc (n / d)

-- `Math.round(x * k) / k`, where 1 / k is `d` units: the nearest multiple of `d`, counted in multiples,
-- with ties up.
unfoldable pub round_to : ℕ → ℤ → ℤ
unfolding floor_div
round_to d x = floor_div (x +ℤ x +ℤ pos d) (2 * d)

floor_div_bounds :
    (x : ℤ) (d : ℕ)
    → 0 < d
    → (pos_part (floor_div x d) * d + neg_part x ≤ neg_part (floor_div x d) * d + pos_part x)
      × (neg_part (floor_div x d) * d + pos_part x < pos_part (floor_div x d) * d + neg_part x + d)
unfolding floor_div
floor_div_bounds (pos n) d h = grind arith
floor_div_bounds (negsuc n) d h = grind arith

-- For a positive `d` the result is the multiple of `d` that is nearest to `x`, and the greater one at a tie: twice `x` lies
-- from `d` below twice the result, that bound included, to `d` above it, that bound left out.
pub round_to_nearest :
    (d : ℕ) (x : ℤ)
    → 0 < d
    → let r = round_to d x in
      (2 * (pos_part r * d) + 2 * neg_part x ≤ 2 * (neg_part r * d) + 2 * pos_part x + d)
      × (2 * (neg_part r * d) + 2 * pos_part x < 2 * (pos_part r * d) + 2 * neg_part x + d)
unfolding round_to
round_to_nearest d x h = omega (
  arith,
  floor_div_bounds (x +ℤ x +ℤ pos d) (2 * d) (omega arith),
  +ℤ_parts x x,
  +ℤ_parts (x +ℤ x) (pos d),
)

-- `x > 0`, `x < 0` and `x === 0`.
abbrev pub is_positive : ℤ → Bool
is_positive (pos n) = ltb 0 n
is_positive (negsuc n) = false

abbrev pub is_negative : ℤ → Bool
is_negative (pos n) = false
is_negative (negsuc n) = true

abbrev pub is_zero : ℤ → Bool
is_zero (pos n) = n == 0
is_zero (negsuc n) = false
