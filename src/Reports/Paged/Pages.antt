-- ===== src/Reports/Paged/Pages.antt =====
-- What the pages of the paged hooks hold together.
use bbgo_sass.Prelude.{
  sym, subst, ◌⊎◌, inl, inr, ◌≤◌, ℕ, zero, suc, ◌+◌, ◌-◌, ◌*◌, ◌<◌, ◌≡◌, refl, List, [], ◌∷◌, ◌++◌,
  Option, none, some, arith, length, take, drop, ap, ◌∙◌,
}
use bbgo_sass.Reports.Paged.{
  Text, Selection, PagedQueryOpts, PagedResult, from_of, to_of, adapt_from, paged,
  closed_orders_paged, closed_orders_selection, trades_paged, trades_selection, profits_paged,
  profits_selection, optional_filters, count_or_zero,
}

take_nil {ℓ} : {A : Type ℓ} → (k : ℕ) → take {A = A} k [] ≡ []
take_nil zero = refl
take_nil (suc k) = refl

module _ {ℓ κ} {Row : Type ℓ} {T : Type κ} (adapt : Row → ℕ → T) where
  -- A window and the next one make up one window.
  windows-join :
      (i m k : ℕ) (xs : List Row)
      → adapt_from adapt i (take m xs) ++ adapt_from adapt (i + m) (take k (drop m xs))
        ≡ adapt_from adapt i (take (m + k) xs)
  unfolding adapt_from
  windows-join i zero k xs =
      ap (λ j. adapt_from adapt j (take k xs)) (omega arith)
      ∙ ap (λ j. adapt_from adapt i (take j xs)) (omega arith)
  windows-join i (suc m) k [] =
      ap (adapt_from adapt (i + suc m)) (take_nil k)
      ∙ sym (ap (adapt_from adapt i) (take_nil (suc m + k)))
  windows-join i (suc m) k (x ∷ xs) =
      let at : i + suc m ≡ suc i + m = omega arith in
      let total : suc (m + k) ≡ suc m + k = omega arith in
      ap
        (λ j.
          (adapt x i ∷ adapt_from adapt (suc i) (take m xs))
          ++ adapt_from adapt j (take k (drop m xs)))
        at
      ∙ ap (λ l. adapt x i ∷ l) (windows-join (suc i) m k xs)
      ∙ ap (λ j. adapt_from adapt i (take j (x ∷ xs))) total

-- The rows of the first pages, one page after the other, or `none` if one of them fails.
unfoldable pub pages_of {ℓ} : {T : Type ℓ} → (ℕ → Option (PagedResult T)) → ℕ → Option (List T)
pages_of page zero = some []
pages_of page (suc n) = elim (pages_of page n) [
  | none ↦ none
  | some ts ↦ elim (page (suc n)) [ none ↦ none | some r ↦ some (ts ++ r.rows) ]
]

module _ {ℓ} {Row : Type ℓ} (database : Selection → ℕ → ℕ → Option (List Row × Option ℕ))
    (matching : Selection → List Row)
    (serves : (s : Selection) (from to : ℕ)
      → (from ≡ 0) ⊎ (from < length (matching s))
      → database s from to
        ≡ some (take (suc to - from) (drop from (matching s)), some (length (matching s)))) where
  -- The last of `n` pages begins with a row, or is the first one.
  abbrev pub HasPages : (size n : ℕ) → Selection → Type 0
  HasPages size n s = (n ≤ 1) ⊎ ((n - 1) * size < length (matching s))

  fewer_pages : (size n : ℕ) (s : Selection) → HasPages size (suc n) s → HasPages size n s
  fewer_pages size n s (inl h) = inl (omega (arith, h))
  fewer_pages size zero s (inr h) = inl (omega arith)
  fewer_pages size (suc n) s (inr h) =
      let here : suc (suc n) - 1 ≡ suc n = omega arith in
      let there : suc n - 1 ≡ n = omega arith in
      let more : suc n * size ≡ n * size + size = omega arith in
      inr (
        subst (λ k. k * size < length (matching s)) (sym there)
          (omega (arith, more, subst (λ k. k * size < length (matching s)) here h)))

  page_begins :
      (size n : ℕ) (s : Selection)
      → HasPages size (suc n) s
      → (n * size ≡ 0) ⊎ (n * size < length (matching s))
  page_begins size n s (inl h) =
      let first : n ≡ 0 = omega (arith, h) in inl (ap (λ k. k * size) first ∙ omega arith)
  page_begins size n s (inr h) =
      let here : suc n - 1 ≡ n = omega arith in
      inr (subst (λ k. k * size < length (matching s)) here h)

  module _ {κ} {T : Type κ} (adapt : Row → ℕ → T) (s : Selection) (opts : PagedQueryOpts) where
    -- One page: the rows of its window, with their places among all, and the number of all.
    paged-window :
        (n : ℕ)
        → 0 < opts.page_size
        → HasPages opts.page_size (suc n) s
        → paged database adapt s (record opts { page = suc n })
          ≡ some (record {
            rows =
                adapt_from adapt
                  (n * opts.page_size)
                  (take opts.page_size (drop (n * opts.page_size) (matching s)));
            total = length (matching s);
          })
    unfolding paged from_of to_of count_or_zero
    paged-window n h k =
        go (from_of (record opts { page = suc n })) (to_of (record opts { page = suc n }))
          (ap (λ j. j * opts.page_size) (omega arith))
          (ap (λ j. j * opts.page_size + opts.page_size - 1) (omega arith))
      where
        go :
            (from to : ℕ)
            → from ≡ n * opts.page_size
            → to ≡ n * opts.page_size + opts.page_size - 1
            → elim (database s from to) as (λ x. Option (PagedResult T)) [
              | none ↦ none
              | some answer ↦
                  some (record {
                    rows = adapt_from adapt from answer.0;
                    total = count_or_zero answer.1;
                  })
            ]
              ≡ some (record {
                rows =
                    adapt_from adapt
                      (n * opts.page_size)
                      (take opts.page_size (drop (n * opts.page_size) (matching s)));
                total = length (matching s);
              })
        go from to e f =
            let window : suc (n * opts.page_size + opts.page_size - 1) - n * opts.page_size
                ≡ opts.page_size =
              omega arith in
            rw (
              e,
              f,
              serves s (n * opts.page_size) (n * opts.page_size + opts.page_size - 1)
                  (page_begins opts.page_size n s k),
              window,
              e,
            )

    paged-all :
        (n : ℕ)
        → 0 < opts.page_size
        → HasPages opts.page_size n s
        → pages_of (λ k. paged database adapt s (record opts { page = k })) n
          ≡ some (adapt_from adapt 0 (take (n * opts.page_size) (matching s)))
    unfolding pages_of adapt_from
    paged-all zero h k =
        let no_rows : 0 ≡ 0 * opts.page_size = omega arith in
        ap (λ j. some (adapt_from adapt 0 (take j (matching s)))) no_rows
    paged-all (suc n) h k =
        let size = opts.page_size in
        let join = windows-join adapt 0 (n * size) size (matching s) in
        let place : 0 + n * size ≡ n * size = omega arith in
        let total : n * size + size ≡ suc n * size = omega arith in
        rw (paged-all n h (fewer_pages size n s k), paged-window n h k)
          (ap some (
            sym (
              ap
                (λ j.
                  adapt_from adapt 0 (take (n * size) (matching s))
                  ++ adapt_from adapt j (take size (drop (n * size) (matching s))))
                place)
            ∙ join
            ∙ ap (λ j. adapt_from adapt 0 (take j (matching s))) total))

  adapt_from_same : (i : ℕ) (xs : List Row) → adapt_from (λ r j. r) i xs ≡ xs
  unfolding adapt_from
  adapt_from_same i [] = refl
  adapt_from_same i (x ∷ xs) = ap (λ l. x ∷ l) (adapt_from_same (suc i) xs)

  -- If the database answers a range that begins with a row, or at 0, with the rows of the selection from the
  -- one place to the other, and with their number: for a positive page size the first `n` pages of the
  -- closed orders, of the trades and of the profits are, one after the other, the first rows that match,
  -- as many as `n` pages hold; the orders and the trades are adapted once each, with their places among all
  -- as their indices. The last of the pages must begin with a row, or be the first one; of the pages after
  -- it, for which the database may give an error, nothing is said.
  pub pages-all {κ μ} :
      {T : Type κ} {U : Type μ} (order_of : Row → ℕ → T) (trade_of : Row → ℕ → U) (user_id : Text)
      (opts : PagedQueryOpts) (n : ℕ)
      → 0 < opts.page_size
      → HasPages opts.page_size n (closed_orders_selection user_id opts)
      → HasPages opts.page_size n (trades_selection user_id opts)
      → HasPages opts.page_size n (profits_selection user_id opts)
      → let size = n * opts.page_size in
        (pages_of (λ k. closed_orders_paged database order_of user_id (record opts { page = k })) n
          ≡ some
              (adapt_from order_of 0 (take size (matching (closed_orders_selection user_id opts)))))
        × (pages_of (λ k. trades_paged database trade_of user_id (record opts { page = k })) n
            ≡ some (adapt_from trade_of 0 (take size (matching (trades_selection user_id opts)))))
        × (pages_of (λ k. profits_paged database user_id (record opts { page = k })) n
            ≡ some (take size (matching (profits_selection user_id opts))))
  unfolding closed_orders_paged trades_paged profits_paged closed_orders_selection trades_selection
      profits_selection optional_filters
  pages-all order_of trade_of user_id opts n h orders trades profits = (
    paged-all order_of (closed_orders_selection user_id opts) opts n h orders,
    paged-all trade_of (trades_selection user_id opts) opts n h trades,
    paged-all (λ r j. r) (profits_selection user_id opts) opts n h profits
        ∙ ap some (
            adapt_from_same 0
              (take (n * opts.page_size) (matching (profits_selection user_id opts)))),
  )
