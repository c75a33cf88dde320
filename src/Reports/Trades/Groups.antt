-- ===== src/Reports/Trades/Groups.antt =====
-- Which trades make up the rows of `computePnLFromTrades`.
use bbgo_sass.Prelude.{
  Bool, append_assoc, append-nil, ℕ, ◌≡◌, refl, List, [], ◌∷◌, ◌++◌, if◌then◌else◌, Bool-cases, inl,
  inr, ap, ◌∙◌, sym, All, All-append, All-map,
}
use bbgo_sass.Prelude.Sort.{sort}
use bbgo_sass.Prelude.Text.{same_text, same_text_refl, eq_of_same_text}
use bbgo_sass.Prelude.Dict.{
  find_entry, set_entry, value_or, HasDistinctKeys, set_entry-HasDistinctKeys,
  find_entry-set_entry_self, find_entry-set_entry_ne, HasDistinctKeys-find_entry,
}
use bbgo_sass.Trade.{Side, buy, sell}
use bbgo_sass.Reports.Trades.{
  BbgoTrade, by_time, add_to_group, by_symbol, DayEntry, Book, new_book, book_buy, book_sell,
  book_side, book_trade, book_trades, SymbolPnl, symbol_row, Totals, no_totals, add_symbol,
  add_symbols, report_of, compute_pnl,
}

abbrev Groups : Type 0
Groups = List (List ℕ × List BbgoTrade)

-- The trades of a symbol, in their order.
unfoldable pub trades_of : List ℕ → List BbgoTrade → List BbgoTrade
trades_of s [] = []
trades_of s (t ∷ ts) = if same_text t.symbol s then t ∷ trades_of s ts else trades_of s ts

trades_of-append :
    (s : List ℕ) (ts us : List BbgoTrade)
    → trades_of s (ts ++ us) ≡ trades_of s ts ++ trades_of s us
unfolding trades_of
trades_of-append s [] us = refl
trades_of-append s (t ∷ ts) us = elim (Bool-cases (same_text t.symbol s)) [
  | inl e ↦ rw e (rw (trades_of-append s ts us))
  | inr e ↦ rw e (trades_of-append s ts us)
]

abbrev group_of : List ℕ → Groups → List BbgoTrade
group_of s m = value_or same_text (λ l. l) [] (find_entry same_text s m)

-- The groups are those of the trades that they have taken.
abbrev Holds : List BbgoTrade → Groups → Type 0
Holds ts m = (s : List ℕ) → group_of s m ≡ trades_of s ts

add_to_group-Holds :
    (ts : List BbgoTrade) (t : BbgoTrade) (m : Groups)
    → Holds ts m
    → Holds (ts ++ (t ∷ [])) (add_to_group t m)
unfolding add_to_group trades_of
add_to_group-Holds ts t m h s =
    let list = group_of t.symbol m ++ (t ∷ []) in
    elim (Bool-cases (same_text t.symbol s)) [
      | inl e ↦
          let eq : t.symbol ≡ s = eq_of_same_text t.symbol s e in
          let one : trades_of s (t ∷ []) ≡ t ∷ [] = rw e in
          ap (λ x. group_of x (set_entry same_text t.symbol list m)) (sym eq)
          ∙ ap (value_or same_text (λ l. l) [])
              (find_entry-set_entry_self same_text same_text_refl eq_of_same_text t.symbol list m)
          ∙ ap (λ g. g ++ (t ∷ [])) (h t.symbol ∙ ap (λ x. trades_of x ts) eq)
          ∙ sym (trades_of-append s ts (t ∷ []) ∙ ap (λ g. trades_of s ts ++ g) one)
      | inr e ↦
          let none_here : trades_of s (t ∷ []) ≡ [] = rw e in
          ap (value_or same_text (λ l. l) [])
            (find_entry-set_entry_ne same_text same_text_refl eq_of_same_text t.symbol s list m e)
          ∙ h s
          ∙ sym (
              trades_of-append s ts (t ∷ [])
              ∙ ap (λ g. trades_of s ts ++ g) none_here
              ∙ append-nil (trades_of s ts))
    ]

by_symbol-Holds :
    (done ts : List BbgoTrade) (m : Groups) → Holds done m → Holds (done ++ ts) (by_symbol m ts)
unfolding by_symbol
by_symbol-Holds done [] m h = λ s. h s ∙ ap (trades_of s) (sym (append-nil done))
by_symbol-Holds done (t ∷ ts) m h = λ s.
    by_symbol-Holds (done ++ (t ∷ [])) ts (add_to_group t m) (add_to_group-Holds done t m h) s
    ∙ ap (trades_of s) (append_assoc done (t ∷ []) ts)

by_symbol-HasDistinctKeys :
    (ts : List BbgoTrade) (m : Groups)
    → HasDistinctKeys same_text m
    → HasDistinctKeys same_text (by_symbol m ts)
unfolding by_symbol add_to_group
by_symbol-HasDistinctKeys [] m d = d
by_symbol-HasDistinctKeys (t ∷ ts) m d =
    by_symbol-HasDistinctKeys ts (add_to_group t m)
      (set_entry-HasDistinctKeys same_text t.symbol _ m d)

-- A book without its days.
abbrev forget : Book → Book
forget b = record b { daily_map = [] }

forget-book_side :
    (s : Side) (t : BbgoTrade) (b : Book)
    → forget (book_side s t b) ≡ forget (book_side s t (forget b))
unfolding book_side book_buy book_sell
forget-book_side buy t b = refl
forget-book_side sell t b = refl

forget-book_trade :
    (b : Book) (t : BbgoTrade) → forget (book_trade b t) ≡ forget (book_trade (forget b) t)
unfolding book_trade
forget-book_trade b t = forget-book_side t.side t _

forget-book_trades :
    (b : Book) (ts : List BbgoTrade)
    → forget (book_trades b ts) ≡ forget (book_trades (forget b) ts)
unfolding book_trades
forget-book_trades b [] = refl
forget-book_trades b (t ∷ ts) =
    forget-book_trades (book_trade b t) ts
    ∙ ap (λ c. forget (book_trades c ts)) (forget-book_trade b t)
    ∙ sym (forget-book_trades (book_trade (forget b) t) ts)

-- The row of a symbol from its own trades alone.
abbrev pub row_for : List ℕ → List BbgoTrade → SymbolPnl
row_for s ts = symbol_row s (book_trades (new_book []) (trades_of s ts))

row_any_days :
    (m : List (List ℕ × DayEntry)) (s : List ℕ) (ts : List BbgoTrade)
    → symbol_row s (book_trades (new_book m) ts) ≡ symbol_row s (book_trades (new_book []) ts)
row_any_days m s ts =
    ap (symbol_row s)
      (forget-book_trades (new_book m) ts ∙ sym (forget-book_trades (new_book []) ts))

-- Each group has the trades of its symbol.
by_symbol-groups : (ts : List BbgoTrade) → All (λ g. g.1 ≡ trades_of g.0 ts) (by_symbol [] ts)
unfolding trades_of find_entry
by_symbol-groups ts =
    let m = by_symbol [] ts in
    let holds : Holds ts m = by_symbol-Holds [] ts [] (λ s. refl) in
    All-map (λ g found. sym (ap (value_or same_text (λ l. l) []) found) ∙ holds g.0) m
      (HasDistinctKeys-find_entry same_text same_text_refl eq_of_same_text m
        (by_symbol-HasDistinctKeys ts [] tt))

-- A row of a report is made from the trades of its symbol, sorted stably by `localeCompare` of their times.
abbrev pub IsRowOf : (collate : List ℕ → List ℕ → Bool) → List BbgoTrade → SymbolPnl → Type 0
IsRowOf collate ts row = row ≡ row_for row.symbol (sort (by_time collate) ts)

add_symbols-rows :
    (collate : List ℕ → List ℕ → Bool) (ts : List BbgoTrade) (t : Totals) (gs : Groups)
    → All (λ g. g.1 ≡ trades_of g.0 (sort (by_time collate) ts)) gs
    → All (IsRowOf collate ts) t.symbols
    → All (IsRowOf collate ts) (add_symbols t gs).symbols
unfolding add_symbols add_symbol
add_symbols-rows collate ts t [] g h = h
add_symbols-rows collate ts t ((s, us) ∷ gs) g h =
    add_symbols-rows collate ts (add_symbol t (s, us)) gs g.1 (
      All-append (IsRowOf collate ts) t.symbols
        (symbol_row s (book_trades (new_book t.daily_map) us) ∷ []) h
        (
          row_any_days t.daily_map s us ∙ ap (λ l. symbol_row s (book_trades (new_book []) l)) g.0,
          tt,
        ))

-- The row of a symbol comes from the trades of that symbol alone, taken on a queue of their own in the order
-- that the stable sort by `localeCompare` of their times gives, whatever that order is: no trade of
-- another symbol has a part in it.
pub compute_pnl-rows :
    (at : List ℕ → ℕ) (collate : List ℕ → List ℕ → Bool) (ts : List BbgoTrade)
    → All (IsRowOf collate ts) (compute_pnl at collate ts).symbols
unfolding compute_pnl report_of
compute_pnl-rows at collate [] = tt
compute_pnl-rows at collate (t ∷ ts) =
    add_symbols-rows collate (t ∷ ts) no_totals (by_symbol [] (sort (by_time collate) (t ∷ ts)))
      (by_symbol-groups (sort (by_time collate) (t ∷ ts))) tt
