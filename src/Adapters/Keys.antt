-- ===== src/Adapters/Keys.antt =====
-- The keys of the rows of a query, by web/src/lib/bbgo/supabase-adapters.ts.
use bbgo_sass.Prelude.{
  ℕ, suc, ◌<◌, ◌≡◌, ◌≢◌, List, [], ◌∷◌, ◌++◌, Option, arith, sym, All, map, IsDistinct,
}
use bbgo_sass.Reports.Paged.{adapt_from}
use bbgo_sass.Adapters.{Text, TradeRow, BbgoTrade, trade_row_to_bbgo, trade_key}

abbrev pub HasNoDash : Text → Type 0
HasNoDash = All (λ c. c ≢ b'-')

-- What follows the first dash.
after_dash :
    (s t a b : Text) → HasNoDash s → HasNoDash t → (s ++ b'-' ∷ a) ≡ (t ++ b'-' ∷ b) → a ≡ b
after_dash [] [] a b h k e = cc
after_dash [] (d ∷ t) a b h k e = let first : b'-' ≡ d = cc in absurd (k.0 (sym first))
after_dash (c ∷ s) [] a b h k e = let first : c ≡ b'-' = cc in absurd (h.0 first)
after_dash (c ∷ s) (d ∷ t) a b h k e = after_dash s t a b h.1 k.1 cc

module _ (parse_int : Text → Option ℕ) (number_text : ℕ → Text)
    (no_dash : (n : ℕ) → HasNoDash (number_text n))
    (injective : (m n : ℕ) → number_text m ≡ number_text n → m ≡ n) where
  abbrev pub keys_from : ℕ → List TradeRow → List Text
  keys_from i rows =
      map (trade_key parse_int number_text)
        (adapt_from (trade_row_to_bbgo parse_int number_text) i rows)

  trade_key-gid :
      (t u : BbgoTrade)
      → trade_key parse_int number_text t ≡ trade_key parse_int number_text u
      → t.gid ≡ u.gid
  unfolding trade_key
  trade_key-gid t u e = injective t.gid u.gid (
      after_dash (number_text t.id) (number_text u.id) (number_text t.gid) (number_text u.gid)
        (no_dash t.id) (no_dash u.id) e)

  keys_from-other :
      (t : BbgoTrade) (i : ℕ) (rows : List TradeRow)
      → t.gid < i
      → All (λ k. trade_key parse_int number_text t ≢ k) (keys_from i rows)
  unfolding adapt_from trade_row_to_bbgo
  keys_from-other t i [] h = tt
  keys_from-other t i (row ∷ rows) h =
      let u = trade_row_to_bbgo parse_int number_text row i in
      (
        λ e. let same : t.gid ≡ i = trade_key-gid t u e in absurd (omega arith),
        keys_from-other t (suc i) rows (omega arith),
      )

  -- The keys of the trades of a query are distinct, whatever ids the rows have, also where two ids are
  -- parsed to one number. `String` of a number is taken to give distinct texts without a dash.
  pub keys_from-IsDistinct : (i : ℕ) (rows : List TradeRow) → IsDistinct (keys_from i rows)
  unfolding adapt_from trade_row_to_bbgo
  keys_from-IsDistinct i [] = tt
  keys_from-IsDistinct i (row ∷ rows) =
      let t = trade_row_to_bbgo parse_int number_text row i in
      (keys_from-other t (suc i) rows (omega arith), keys_from-IsDistinct (suc i) rows)
