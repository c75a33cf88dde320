-- ===== src/Reports/Balances/Sums.antt =====
-- The balances that `useSupabaseBalances` of web/src/lib/bbgo/supabase-queries.ts adds up.
use bbgo_sass.Prelude.{
  ◌≡◌, refl, List, [], ◌∷◌, Option, none, some, ap, ◌∙◌, sym, Bool-cases, inl, inr, if◌then◌else◌,
}
use bbgo_sass.Prelude.Int.{ℤ, pos, ◌+ℤ◌, int_laws, parts_of}
use bbgo_sass.Prelude.Text.{same_text, same_text_refl, eq_of_same_text}
use bbgo_sass.Prelude.Dict.{
  find_entry, set_entry, HasDistinctKeys, set_entry-HasDistinctKeys, find_entry-set_entry_self,
  find_entry-set_entry_ne,
}
use bbgo_sass.Prelude.SumBy.{sum_by}
use bbgo_sass.Reports.Paged.{Text}
use bbgo_sass.Reports.Balances.{BalanceRow, Balance, add_balance, balance_step, balance_loop}

module _ (currency : Text) where
  -- What a row adds to a figure of the currency.
  abbrev pub share : (BalanceRow → ℤ) → BalanceRow → ℤ
  share f row = if same_text row.currency currency then f row else pos 0

  abbrev pub figure : (Balance → ℤ) → Option Balance → ℤ
  figure g none = pos 0
  figure g (some b) = g b

  abbrev pub balance_of : List (Text × Balance) → Option Balance
  balance_of m = find_entry same_text currency m

  -- A figure of a balance that a row adds to.
  abbrev pub IsAdded : (BalanceRow → ℤ) → (Balance → ℤ) → Type 0
  IsAdded f g =
      (row : BalanceRow) (o : Option Balance) → g (add_balance row o) ≡ figure g o +ℤ f row

  module _ (f : BalanceRow → ℤ) (g : Balance → ℤ) (added : IsAdded f g) where
    figure-balance_step :
        (row : BalanceRow) (m : List (Text × Balance))
        → figure g (balance_of (balance_step row m)) ≡ figure g (balance_of m) +ℤ share f row
    unfolding balance_step
    figure-balance_step row m = elim (Bool-cases (same_text row.currency currency)) [
      | inl e ↦
          let eq : row.currency ≡ currency = eq_of_same_text row.currency currency e in
          let old = find_entry same_text row.currency m in
          let next = set_entry same_text row.currency (add_balance row old) m in
          let found : find_entry same_text row.currency next ≡ some (add_balance row old) =
            find_entry-set_entry_self same_text same_text_refl eq_of_same_text row.currency
              (add_balance row old) m in
          rw e (
            ap (λ c. figure g (find_entry same_text c next)) (sym eq)
            ∙ ap (figure g) found
            ∙ added row old
            ∙ ap (λ c. figure g (find_entry same_text c m) +ℤ f row) eq)
      | inr e ↦
          let old = find_entry same_text row.currency m in
          let kept : balance_of (balance_step row m) ≡ balance_of m =
            find_entry-set_entry_ne same_text same_text_refl eq_of_same_text row.currency currency
              (add_balance row old) m e in
          rw e (ap (figure g) kept ∙ omega int_laws)
    ]

    figure-balance_loop :
        (m : List (Text × Balance)) (rows : List BalanceRow)
        → figure g (balance_of (balance_loop m rows))
          ≡ figure g (balance_of m) +ℤ sum_by (share f) rows
    unfolding balance_loop sum_by
    figure-balance_loop m [] = omega int_laws
    figure-balance_loop m (row ∷ rows) =
        figure-balance_loop (balance_step row m) rows
        ∙ omega (int_laws, parts_of (figure-balance_step row m))

balance_loop-HasDistinctKeys :
    (m : List (Text × Balance)) (rows : List BalanceRow)
    → HasDistinctKeys same_text m
    → HasDistinctKeys same_text (balance_loop m rows)
unfolding balance_loop balance_step
balance_loop-HasDistinctKeys m [] d = d
balance_loop-HasDistinctKeys m (row ∷ rows) d =
    let old = find_entry same_text row.currency m in
    balance_loop-HasDistinctKeys (balance_step row m) rows
      (set_entry-HasDistinctKeys same_text row.currency (add_balance row old) m d)

available-IsAdded : (currency : Text) → IsAdded currency (λ r. r.available) (λ b. b.available)
unfolding add_balance
available-IsAdded currency row none = omega int_laws
available-IsAdded currency row (some b) = refl

locked-IsAdded : (currency : Text) → IsAdded currency (λ r. r.locked) (λ b. b.locked)
unfolding add_balance
locked-IsAdded currency row none = omega int_laws
locked-IsAdded currency row (some b) = refl

-- The balances have one entry for each currency, and what is available of a currency, and what is locked,
-- is the sum over the rows of that currency.
pub balance_loop_lem :
    (rows : List BalanceRow)
    → let balances = balance_loop [] rows in
      HasDistinctKeys same_text balances
      × ((currency : Text)
          → (figure currency (λ b. b.available) (balance_of currency balances)
              ≡ sum_by (share currency (λ r. r.available)) rows)
            × (figure currency (λ b. b.locked) (balance_of currency balances)
                ≡ sum_by (share currency (λ r. r.locked)) rows))
unfolding find_entry
balance_loop_lem rows = (
  balance_loop-HasDistinctKeys [] rows tt,
  λ currency. (
    figure-balance_loop currency (λ r. r.available) (λ b. b.available) (available-IsAdded currency)
          [] rows
        ∙ omega int_laws,
    figure-balance_loop currency (λ r. r.locked) (λ b. b.locked) (locked-IsAdded currency) [] rows
        ∙ omega int_laws,
  ),
)
