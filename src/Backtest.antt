-- ===== src/Backtest.antt =====
-- What web/src/components/backtest/BacktestEquityChart.tsx computes from the files of a backtest: the
-- binary search for the candle of a trade, and the reading of delimited records. Texts are lists of code
-- units; letters change case in ASCII only. `Number` and `Date.parse` of a text are arguments, `none`
-- for NaN, a number in units of 1e-12 and a date in milliseconds.
pub mod Snap
pub mod Records
pub mod Equity
pub mod Panel
mod Tests
use bbgo_sass.Prelude.{
  ℕ, zero, suc, ◌+◌, ◌-◌, ◌*◌, ◌/◌, ◌^◌, max, Bool, true, false, not, ◌&&◌, ◌||◌, List, [], ◌∷◌,
  ◌++◌, map, Option, none, some, ltb, leb, ◌==◌, if◌then◌else◌, length, get_elem?, get_or,
}
use bbgo_sass.Prelude.Int.{ℤ, pos, negsuc, pos_part, neg_part, ◌-ℤ◌}
use bbgo_sass.Prelude.Text.{codes, same_text, split, includes}
use bbgo_sass.Numbers.{floor_div, is_positive, is_zero}
use bbgo_sass.Trade.{Side, buy, sell}

abbrev pub Text : Type 0
Text = List ℕ

-- `<=` of numbers that may be negative.
abbrev pub leb_ℤ : ℤ → ℤ → Bool
leb_ℤ a b = leb (pos_part a + neg_part b) (pos_part b + neg_part a)

-- The loop of `snapToCandle`, on fuel.
unfoldable pub snap_loop : ℕ → ℕ → List ℕ → (lo hi : ℕ) → ℕ
snap_loop zero target times lo hi = lo
snap_loop (suc fuel) target times lo hi =
    let mid = (lo + hi) / 2 in
    let right = snap_loop fuel target times (mid + 1) hi in
    let left = snap_loop fuel target times lo mid in
    if ltb lo hi then (if ltb (get_or times mid 0) target then right else left) else lo

-- `prev`: there is none at the first place.
unfoldable pub previous : List ℕ → ℕ → Option ℕ
previous times lo = if ltb 0 lo then some (get_or times (lo - 1) 0) else none

-- The end of `snapToCandle`. `!prev` holds of the time 0 too.
unfoldable pub nearer : ℕ → Option ℕ → ℕ → ℕ
nearer target none next = next
nearer target (some prev) next =
    if prev == 0
    then next
    else if leb_ℤ (pos target -ℤ pos prev) (pos next -ℤ pos target)
    then prev
    else next

unfoldable pub snap_to_candle : ℕ → List ℕ → ℕ
snap_to_candle target [] = target
snap_to_candle target (t ∷ ts) =
    let times = t ∷ ts in
    let lo = snap_loop (length times) target times 0 (length times - 1) in
    if leb (length times) lo
    then get_or times (length times - 1) 0
    else nearer target (previous times lo) (get_or times lo 0)

-- The loop of `splitRecord`.
unfoldable pub split_quoted : (in_quotes : Bool) → (current line : Text) → List Text
split_quoted in_quotes current [] = current ∷ []
split_quoted in_quotes current (ch ∷ line) =
    let toggled = split_quoted (not in_quotes) current line in
    let next_part = current ∷ split_quoted in_quotes [] line in
    let same_part = split_quoted in_quotes (current ++ (ch ∷ [])) line in
    if ch == b'"' then toggled else if ch == b',' && not in_quotes then next_part else same_part

-- `splitRecord`, for a delimiter that is a tab (9) or a comma.
unfoldable pub split_record : Text → ℕ → List Text
split_record line delimiter = if delimiter == 9 then split 9 line else split_quoted false [] line

-- The characters that `trim` takes away, of the first 256.
abbrev pub is_space : ℕ → Bool
is_space c = c == 32 || (leb 9 c && leb c 13) || c == 160

unfoldable pub trim_start : Text → Text
trim_start [] = []
trim_start (c ∷ s) = let rest = trim_start s in if is_space c then rest else c ∷ s

unfoldable pub trim_end : Text → Text
trim_end [] = []
trim_end (c ∷ s) = elim (trim_end s) [ [] ↦ if is_space c then [] else c ∷ [] | d ∷ r ↦ c ∷ d ∷ r ]

unfoldable pub trim : Text → Text
trim s = trim_end (trim_start s)

abbrev pub to_lower : ℕ → ℕ
to_lower c = if leb b'A' c && leb c b'Z' then c + 32 else c

abbrev pub to_upper : ℕ → ℕ
to_upper c = if leb b'a' c && leb c b'z' then c - 32 else c

-- `header.indexOf(name)`, from an index on; `none` for -1.
unfoldable pub index_of_from : ℕ → Text → List Text → Option ℕ
index_of_from i name [] = none
index_of_from i name (h ∷ hs) = if same_text h name then some i else index_of_from (i + 1) name hs

unfoldable pub index_of : Text → List Text → Option ℕ
index_of name header = index_of_from 0 name header

unfoldable pub or_else : Option ℕ → Option ℕ → Option ℕ
or_else none other = other
or_else (some i) other = some i

pub record Columns : Type 0 where
  pub side : ℕ
  pub price : ℕ
  pub quantity : ℕ
  pub time : ℕ

-- The indices of the four columns, if there are all of them.
unfoldable pub all_columns : (side price quantity time : Option ℕ) → Option Columns
all_columns (some s) (some p) (some q) (some t) =
    some (record { side = s; price = p; quantity = q; time = t })
all_columns _ _ _ _ = none

unfoldable pub columns_of : List Text → Option Columns
columns_of header =
    all_columns (index_of (codes "side") header) (index_of (codes "price") header)
      (index_of (codes "quantity") header)
      (or_else (index_of (codes "creation_time") header) (index_of (codes "time") header))

unfoldable pub side_of : Text → Option Side
side_of s =
    let upper = map to_upper s in
    if same_text upper (codes "BUY")
    then some buy
    else if same_text upper (codes "SELL")
    then some sell
    else none

pub record TradeMarker : Type 0 where
  pub time : ℤ
  pub side : Side
  pub price : ℤ
  pub quantity : ℤ

abbrev pub unit : ℕ
unit = 10 ^ 12

module _ (number date : Text → Option ℤ) where
  -- `Math.floor(ms / 1000)`
  unfoldable pub date_seconds : Text → Option ℤ
  date_seconds raw = elim (date raw) [ none ↦ none | some ms ↦ some (floor_div ms 1000) ]

  -- `time`: a positive number stands for seconds, anything else for a date.
  unfoldable pub raw_seconds : Text → Option ℤ
  raw_seconds raw = elim (number raw) [
    | none ↦ date_seconds raw
    | some x ↦ if is_positive x then some (floor_div x unit) else date_seconds raw
  ]

  -- A time that is NaN or 0 is skipped.
  unfoldable pub seconds_of : Text → Option ℤ
  seconds_of raw = elim (raw_seconds raw) [
    | none ↦ none
    | some t ↦ if is_zero t then none else some t
  ]

  -- The rest of a round, once the side is known.
  unfoldable pub marker_of : Columns → List Text → Side → Option TradeMarker
  marker_of cs parts side = elim (number (get_or parts cs.price [])) [
    | none ↦ none
    | some price ↦ elim (number (get_or parts cs.quantity [])) [
      | none ↦ none
      | some quantity ↦ elim (seconds_of (get_or parts cs.time [])) [
        | none ↦ none
        | some time ↦ some (record { time = time; side = side; price = price; quantity = quantity })
      ]
    ]
  ]

  -- A round of the loop over the lines: the marker of a line, unless it is skipped.
  unfoldable pub order_of : ℕ → Columns → Text → Option TradeMarker
  order_of delimiter cs line =
      let parts = map trim (split_record line delimiter) in
      let max_index = max (max cs.side cs.price) (max cs.quantity cs.time) in
      if leb (length parts) max_index then none else elim (side_of (get_or parts cs.side [])) [
        | none ↦ none
        | some side ↦ marker_of cs parts side
      ]

  unfoldable pub orders_of : ℕ → Columns → List Text → List TradeMarker
  orders_of delimiter cs [] = []
  orders_of delimiter cs (line ∷ lines) = elim (order_of delimiter cs line) [
    | none ↦ orders_of delimiter cs lines
    | some marker ↦ marker ∷ orders_of delimiter cs lines
  ]

  abbrev pub delimiter_of : Text → ℕ
  delimiter_of line = if includes line 9 then 9 else b','

  -- `parseOrdersTSV` of the lines of a trimmed text.
  unfoldable pub orders_of_lines : List Text → List TradeMarker
  orders_of_lines [] = []
  orders_of_lines (first ∷ []) = []
  orders_of_lines (first ∷ second ∷ lines) =
      let delimiter = delimiter_of first in
      let header = map (λ h. map to_lower (trim h)) (split_record first delimiter) in
      elim (columns_of header) [ none ↦ [] | some cs ↦ orders_of delimiter cs (second ∷ lines) ]

  unfoldable pub parse_orders_tsv : Text → List TradeMarker
  parse_orders_tsv raw = orders_of_lines (split 10 (trim raw))
