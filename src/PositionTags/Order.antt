-- ===== src/PositionTags/Order.antt =====
-- The order in which the trades are taken.
use bbgo_sass.Prelude.{
  ℕ, zero, suc, ◌+◌, ◌≤◌, ◌<◌, ◌≡◌, inl, inr, true, false, List, arith, leb, All, All-map, Any,
  IsDistinct, length, Bool-cases,
}
use bbgo_sass.Prelude.Sort.{IsSorted, sort-All, sort-Any, sort-IsDistinct, sort-IsSorted}
use bbgo_sass.Prelude.Text.{codes, lex_lt_asym, lex_lt_trans}
use bbgo_sass.PositionTags.{Trade, traded_at, index_le, indices_from, sorted_indices}

indices_from-All : (i n : ℕ) → All (λ j. (i ≤ j) × (j < i + n)) (indices_from i n)
unfolding indices_from
indices_from-All i zero = tt
indices_from-All i (suc n) = (
  omega arith,
  All-map (λ j h. omega arith) (indices_from (suc i) n) (indices_from-All (suc i) n),
)

indices_from-Any : (i n j : ℕ) → i ≤ j → j < i + n → Any (λ k. k ≡ j) (indices_from i n)
unfolding indices_from
indices_from-Any i zero j h k = absurd (omega arith)
indices_from-Any i (suc n) j h k = elim (Bool-cases (leb j i)) [
  | inl e ↦ inl (ground arith)
  | inr e ↦ inr (indices_from-Any (suc i) n j (ground arith) (omega arith))
]

indices_from-IsDistinct : (i n : ℕ) → IsDistinct (indices_from i n)
unfolding indices_from
indices_from-IsDistinct i zero = tt
indices_from-IsDistinct i (suc n) = (
  All-map (λ j h. omega arith) (indices_from (suc i) n) (indices_from-All (suc i) n),
  indices_from-IsDistinct (suc i) n,
)

module _ (ts : List Trade) where
  -- Only indices of trades are taken,
  pub sorted_indices-All : All (λ j. j < length ts) (sorted_indices ts)
  unfolding sorted_indices
  sorted_indices-All =
      sort-All (index_le ts) _ _ (All-map (λ j h. omega arith) _ (indices_from-All 0 (length ts)))

  -- each of them,
  pub sorted_indices-Any : (i : ℕ) → i < length ts → Any (λ k. k ≡ i) (sorted_indices ts)
  unfolding sorted_indices
  sorted_indices-Any i h =
      sort-Any (index_le ts) _ _ (indices_from-Any 0 (length ts) i (omega arith) (omega arith))

  -- and none of them twice.
  pub sorted_indices-IsDistinct : IsDistinct (sorted_indices ts)
  unfolding sorted_indices
  sorted_indices-IsDistinct =
      sort-IsDistinct (index_le ts) _ (indices_from-IsDistinct 0 (length ts))

  index_le_total : (a b : ℕ) → index_le ts a b ≡ false → index_le ts b a ≡ true
  unfolding index_le
  index_le_total a b h =
      ground (arith, lex_lt_asym (codes (traded_at ts b)) (codes (traded_at ts a)))

  index_le_trans :
      (a b c : ℕ) → index_le ts a b ≡ true → index_le ts b c ≡ true → index_le ts a c ≡ true
  unfolding index_le
  index_le_trans a b c h k =
      let ta = codes (traded_at ts a) in
      let tb = codes (traded_at ts b) in
      let tc = codes (traded_at ts c) in
      ground (
        arith,
        lex_lt_asym ta tb,
        lex_lt_asym tb tc,
        lex_lt_asym ta tc,
        lex_lt_trans ta tb tc,
        lex_lt_trans tc tb ta,
        lex_lt_trans tb tc ta,
        lex_lt_trans tc ta tb,
        lex_lt_trans ta tc tb,
        lex_lt_trans tb ta tc,
      )

  -- They stand in the order of the comparator.
  pub sorted_indices-IsSorted : IsSorted (index_le ts) (sorted_indices ts)
  unfolding sorted_indices
  sorted_indices-IsSorted = sort-IsSorted (index_le ts) index_le_total index_le_trans _
