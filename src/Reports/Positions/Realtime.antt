-- ===== src/Reports/Positions/Realtime.antt =====
-- The profits of positions at a price.
use bbgo_sass.Prelude.{
  ℕ, zero, suc, ◌+◌, ◌*◌, ◌<◌, ◌≡◌, ◌↔◌, ◌⊎◌, refl, Bool, true, false, not, List, [], ◌∷◌, map,
  some, ltb, arith, ◌==◌, if◌then◌else◌, All, ap, ◌∙◌,
}
use native.Mathlib.Nat.{lt_of_mul-lt-mul_right, mul-lt-mul_of_pos_right}
use bbgo_sass.Prelude.Int.{
  ℤ, pos, negsuc, pos_part, ◌+ℤ◌, ◌-ℤ◌, ◌*ℤ◌, -ℤ_parts, neg_part, int_laws, parts_of,
}
use bbgo_sass.Prelude.SumBy.{sum_by}
use bbgo_sass.Numbers.{floor_div, zero_ℤ, round_to, is_positive, is_negative, is_zero}
use bbgo_sass.Reports.Profits.{abs}
use bbgo_sass.Reports.Positions.{
  PositionRow, to_latest_position, latest_by_group, LatestPosition, open_ones, latest_positions,
  pnl_of, unrealized_loop, percent, unrealized_pnl, millionth, ten_thousand, FuturesPositionRisk,
  futures_pnl,
}

pos_difference : (a b : ℕ) → (is_positive (pos a -ℤ pos b) ≡ true) ↔ (b < a)
unfolding ◌-ℤ◌ ◌+ℤ◌
pos_difference a b = (ground arith, ground arith)

scaled_lt : (a b n : ℕ) → (a * suc n < b * suc n) ↔ (a < b)
scaled_lt a b n = (lt_of_mul-lt-mul_right (suc n), λ h. mul-lt-mul_of_pos_right h (omega arith))

-- A futures position with a known entry price gains at a price that is not 0 exactly if it is long and
-- the price is above the entry price, or short and the price is below it.
pub futures_pnl-gains :
    (r : FuturesPositionRisk) (mark : ℕ)
    → 0 < r.entry_price
    → 0 < mark
    → (is_positive (futures_pnl r mark) ≡ true) ↔ (
        ((is_positive r.position_amount ≡ true) × (r.entry_price < mark))
        ⊎ ((is_negative r.position_amount ≡ true) × (mark < r.entry_price)))
unfolding futures_pnl
futures_pnl-gains r mark h k = go r.position_amount
  where
    go :
        (amount : ℤ)
        → (is_positive (futures_pnl (record r { position_amount = amount }) mark) ≡ true) ↔ (
            ((is_positive amount ≡ true) × (r.entry_price < mark))
            ⊎ ((is_negative amount ≡ true) × (mark < r.entry_price)))
    go (pos zero) = (ground arith, ground arith)
    go (pos (suc n)) = (
      ground (
        arith,
        pos_difference (mark * suc n) (r.entry_price * suc n),
        scaled_lt r.entry_price mark n,
      ),
      ground (
        arith,
        pos_difference (mark * suc n) (r.entry_price * suc n),
        scaled_lt r.entry_price mark n,
      ),
    )
    go (negsuc n) = (
      ground (
        arith,
        pos_difference (r.entry_price * suc n) (mark * suc n),
        scaled_lt mark r.entry_price n,
      ),
      ground (
        arith,
        pos_difference (r.entry_price * suc n) (mark * suc n),
        scaled_lt mark r.entry_price n,
      ),
    )

abbrev pub cost_of : LatestPosition → ℤ
cost_of p = pos (p.average_cost * abs p.base)

abbrev pub IsOpen : LatestPosition → Type 0
IsOpen p = p.is_closed ≡ false

open_ones-IsOpen : (ps : List LatestPosition) → All IsOpen (open_ones ps)
unfolding open_ones
open_ones-IsOpen [] = tt
open_ones-IsOpen (p ∷ ps) = go (open_ones-IsOpen ps) p.is_closed refl
  where
    go :
        All IsOpen (open_ones ps)
        → (b : Bool) → p.is_closed ≡ b
        → All IsOpen (if not b then p ∷ open_ones ps else open_ones ps)
    go rest true e = rest
    go rest false e = (e, rest)

unrealized_loop_open :
    (price : ℕ) (p : LatestPosition) (ps : List LatestPosition) (pnl : ℤ) (cost : ℕ)
    → IsOpen p
    → unrealized_loop price (p ∷ ps) (pnl, cost)
      ≡ unrealized_loop price ps (pnl +ℤ pnl_of price p, cost + p.average_cost * abs p.base)
unfolding unrealized_loop
unrealized_loop_open price p ps pnl cost h = ground (arith, h)

unrealized_loop_nil :
    (price : ℕ) (pnl : ℤ) (cost : ℕ)
    → ((unrealized_loop price [] (pnl, cost)).0 ≡ pnl +ℤ pos 0)
      × (pos (unrealized_loop price [] (pnl, cost)).1 ≡ pos cost +ℤ pos 0)
unfolding unrealized_loop
unrealized_loop_nil price pnl cost = (omega int_laws, omega int_laws)

unrealized_loop-sums :
    (price : ℕ) (ps : List LatestPosition) (pnl : ℤ) (cost : ℕ)
    → All IsOpen ps
    → let r = unrealized_loop price ps (pnl, cost) in
      (r.0 ≡ pnl +ℤ sum_by (pnl_of price) ps) × (pos r.1 ≡ pos cost +ℤ sum_by cost_of ps)
unfolding sum_by
unrealized_loop-sums price [] pnl cost h = unrealized_loop_nil price pnl cost
unrealized_loop-sums price (p ∷ ps) pnl cost h =
    let (a, b) =
      unrealized_loop-sums price ps (pnl +ℤ pnl_of price p) (cost + p.average_cost * abs p.base)
        h.1 in
    let step = unrealized_loop_open price p ps pnl cost h.0 in
    (
      ap (λ r. r.0) step ∙ omega (int_laws, parts_of a),
      ap (λ r. pos r.1) step ∙ omega (int_laws, parts_of b),
    )

no_positions :
    (price : ℕ)
    → ((unrealized_pnl (some price) []).0 ≡ round_to millionth (sum_by (pnl_of price) []))
      × ((unrealized_pnl (some price) []).1
          ≡ percent (sum_by (pnl_of price) []) (pos_part (sum_by cost_of [])))
unfolding unrealized_pnl sum_by percent round_to floor_div ◌+ℤ◌
no_positions price = (refl, refl)

unrealized_pnl_cons :
    (price : ℕ) (p : LatestPosition) (ps : List LatestPosition) {total : ℤ} {cost : ℕ}
    → 0 < price
    → (unrealized_loop price (p ∷ ps) (zero_ℤ, 0)).0 ≡ total
    → (unrealized_loop price (p ∷ ps) (zero_ℤ, 0)).1 ≡ cost
    → ((unrealized_pnl (some price) (p ∷ ps)).0 ≡ round_to millionth total)
      × ((unrealized_pnl (some price) (p ∷ ps)).1 ≡ percent total cost)
unfolding unrealized_pnl
unrealized_pnl_cons price p ps h e f =
    let open_price : (price == 0) ≡ false = ground arith in
    rw open_price (
      ap (round_to millionth) e,
      ap (λ x. percent x (unrealized_loop price (p ∷ ps) (zero_ℤ, 0)).1) e ∙ ap (percent _) f,
    )

-- What a row has gained at a price, whether it is long (a positive base) or short, and what it has cost.
abbrev pub gain_of : ℕ → PositionRow → ℤ
gain_of price r = r.base *ℤ (pos price -ℤ pos r.average_cost)

abbrev pub row_cost : PositionRow → ℤ
row_cost r = pos (r.average_cost * abs r.base)

times_parts :
    (a b : ℤ)
    → pos_part (a *ℤ b) + (pos_part a * neg_part b + neg_part a * pos_part b)
      ≡ neg_part (a *ℤ b) + (pos_part a * pos_part b + neg_part a * neg_part b)
unfolding ◌*ℤ◌
times_parts a b = ground arith

scaled_sum : (a b c d n : ℕ) → a + b ≡ c + d → n * a + b * n ≡ n * c + d * n
scaled_sum a b c d n h = let e : n * (a + b) ≡ n * (c + d) = ap (λ x. n * x) h in grind arith

scaled_difference : (a b n : ℕ) → pos (a * n) -ℤ pos (b * n) ≡ pos n *ℤ (pos a -ℤ pos b)
scaled_difference a b n =
    let d = pos a -ℤ pos b in
    let e : pos_part d + b ≡ neg_part d + a = omega (arith, -ℤ_parts (pos a) (pos b)) in
    omega (int_laws, times_parts (pos n) d, scaled_sum (pos_part d) b (neg_part d) a n e)

scaled_opposite : (a b n : ℕ) → pos (b * suc n) -ℤ pos (a * suc n) ≡ negsuc n *ℤ (pos a -ℤ pos b)
scaled_opposite a b n =
    let d = pos a -ℤ pos b in
    let e : pos_part d + b ≡ neg_part d + a = omega (arith, -ℤ_parts (pos a) (pos b)) in
    omega (int_laws, times_parts (negsuc n) d, scaled_sum (pos_part d) b (neg_part d) a (suc n) e)

no_gain : (a b : ℕ) → pos (b * 0) -ℤ pos (a * 0) ≡ pos 0 *ℤ (pos a -ℤ pos b)
unfolding ◌*ℤ◌ ◌-ℤ◌
no_gain a b = grind arith

pnl_of-gain : (price : ℕ) (r : PositionRow) → pnl_of price (to_latest_position r) ≡ gain_of price r
unfolding pnl_of
pnl_of-gain price r = go r.base r.average_cost
  where
    go :
        (base : ℤ) (cost : ℕ)
        → (if is_positive base
            then pos (price * abs base) -ℤ pos (cost * abs base)
            else pos (cost * abs base) -ℤ pos (price * abs base))
          ≡ base *ℤ (pos price -ℤ pos cost)
    go (pos zero) cost = no_gain price cost
    go (pos (suc n)) cost =
        let size : suc n + 0 ≡ suc n = omega arith in
        let positive : ltb 0 (suc n) ≡ true = ground arith in
        rw (positive, size) (scaled_difference price cost (suc n))
    go (negsuc n) cost =
        let size : 0 + suc n ≡ suc n = omega arith in rw size (scaled_opposite price cost n)

closed_gain : (price : ℕ) (r : PositionRow) → is_zero r.base ≡ true → gain_of price r ≡ pos 0
unfolding ◌*ℤ◌
closed_gain price r h = ground (arith, h)

closed_cost : (r : PositionRow) → is_zero r.base ≡ true → row_cost r ≡ pos 0
closed_cost r h = ground (arith, h)

open_step :
    (f : LatestPosition → ℤ) (closed : Bool) (p : LatestPosition) (ps : List LatestPosition)
    (x y : ℤ)
    → sum_by f ps ≡ y
    → f p ≡ x
    → (closed ≡ true → x ≡ pos 0)
    → sum_by f (if not closed then p ∷ ps else ps) ≡ x +ℤ y
unfolding sum_by
open_step f true p ps x y rest same none_left =
    omega (int_laws, parts_of rest, parts_of (none_left refl))
open_step f false p ps x y rest same none_left = omega (int_laws, parts_of rest, parts_of same)

-- The closed positions, which are left out, add nothing to a sum.
open_sum :
    (f : LatestPosition → ℤ) (g : PositionRow → ℤ)
    → ((r : PositionRow) → f (to_latest_position r) ≡ g r)
    → ((r : PositionRow) → is_zero r.base ≡ true → g r ≡ pos 0)
    → (es : List (List ℕ × PositionRow))
    → sum_by f (open_ones (map {A = List ℕ × PositionRow} (λ e. to_latest_position e.1) es))
      ≡ sum_by (λ e. g e.1) es
unfolding open_ones sum_by
open_sum f g same closed [] = refl
open_sum f g same closed ((k, r) ∷ es) =
    open_step f (is_zero r.base) (to_latest_position r) _ (g r) _ (open_sum f g same closed es)
      (same r) (closed r)

ten_thousand-times : (x : ℤ) → ten_thousand x ≡ x *ℤ pos 10000
unfolding ◌*ℤ◌ ◌-ℤ◌
ten_thousand-times x = ground arith

latest_figures :
    (price : ℕ) (ps : List LatestPosition)
    → 0 < price
    → All IsOpen ps
    → ((unrealized_pnl (some price) ps).0 ≡ round_to millionth (sum_by (pnl_of price) ps))
      × ((unrealized_pnl (some price) ps).1
          ≡ percent (sum_by (pnl_of price) ps) (pos_part (sum_by cost_of ps)))
latest_figures price [] h o = no_positions price
latest_figures price (p ∷ ps) h o =
    let (pnl, cost) = unrealized_loop-sums price (p ∷ ps) zero_ℤ 0 o in
    let costs : pos (unrealized_loop price (p ∷ ps) (zero_ℤ, 0)).1 ≡ sum_by cost_of (p ∷ ps) =
      cost ∙ omega int_laws in
    unrealized_pnl_cons price p ps h (pnl ∙ omega int_laws) (ap pos_part costs)

-- The unrealized profit of the latest positions at a price that is not 0: the sum over the latest rows of the groups,
-- open and closed, of the base, negative for a short position, times the price less the average cost,
-- rounded to units of 1e-6. Its percentage is that of the exact sum by the sum of the costs, rounded to
-- hundredths, and 0 without cost.
pub unrealized_pnl-latest :
    (price : ℕ) (rows : List PositionRow)
    → 0 < price
    → let latest = latest_by_group [] rows in
      let gained = sum_by (λ e. gain_of price e.1) latest in
      let cost = pos_part (sum_by (λ e. row_cost e.1) latest) in
      let result = unrealized_pnl (some price) (latest_positions rows) in
      (result.0 ≡ round_to millionth gained)
      × (result.1 ≡ (if ltb 0 cost then round_to cost (gained *ℤ pos 10000) else pos 0))
unfolding latest_positions percent
unrealized_pnl-latest price rows h =
    let latest = latest_by_group [] rows in
    let ps = open_ones (map {A = List ℕ × PositionRow} (λ e. to_latest_position e.1) latest) in
    let (pnl, pct) = latest_figures price ps h (open_ones-IsOpen _) in
    let gained : sum_by (pnl_of price) ps ≡ sum_by (λ e. gain_of price e.1) latest =
      open_sum (pnl_of price) (gain_of price) (pnl_of-gain price) (closed_gain price) latest in
    let costs : sum_by cost_of ps ≡ sum_by (λ e. row_cost e.1) latest =
      open_sum cost_of row_cost (λ r. refl) closed_cost latest in
    (
      pnl ∙ ap (round_to millionth) gained,
      pct
          ∙ ap (λ g. percent g (pos_part (sum_by cost_of ps))) gained
          ∙ ap (λ c. percent (sum_by (λ e. gain_of price e.1) latest) (pos_part c)) costs
          ∙ ap
              (λ x.
                if ltb 0 (pos_part (sum_by (λ e. row_cost e.1) latest))
                then round_to (pos_part (sum_by (λ e. row_cost e.1) latest)) x
                else pos 0)
              (ten_thousand-times (sum_by (λ e. gain_of price e.1) latest)),
    )
