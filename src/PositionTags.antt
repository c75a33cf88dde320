-- ===== src/PositionTags.antt =====
-- web/src/lib/bbgo/position-tags.ts. A quantity is the value that `parseFloat` gives, in units of 1e-12.
pub mod Order
pub mod Net
pub mod Futures
pub mod Spot
mod Tests
use bbgo_sass.Prelude.{
  ℕ, zero, suc, ◌+◌, Bool, true, false, not, ◌&&◌, List, [], ◌∷◌, Option, none, some, String, leb,
  if◌then◌else◌, length, get_elem?, set, replicate,
}
use bbgo_sass.Prelude.Int.{ℤ, pos, ◌+ℤ◌, ◌-ℤ◌}
use bbgo_sass.Prelude.Sort.{sort}
use bbgo_sass.Prelude.Text.{text_lt}
use bbgo_sass.Numbers.{zero_ℤ, is_positive, is_negative, is_zero}
use bbgo_sass.Trade.{Side, buy, sell}

pub record Trade : Type 0 where
  pub side : Side
  pub quantity : ℕ
  pub traded_at : Option String

-- `open` and `trade` of the source are `opens` and `plain`; `none` stands for its `null`.
pub data Tag : Type 0 where
  opens closes adds reduces plain : Tag

pub record PositionTag : Type 0 where
  pub tag : Option Tag
  pub net_pos : ℤ

pub data FuturesTag : Type 0 where
  open_long close_long open_short close_short add_long reduce_long add_short reduce_short :
      FuturesTag
  flip_long_to_short flip_short_to_long plain : FuturesTag

pub data Direction : Type 0 where
  long short flat : Direction

pub record FuturesPositionTag : Type 0 where
  pub tag : Option FuturesTag
  pub net_pos : ℤ
  pub direction : Direction

-- `trades[i].tradedAt ?? ''`
pub traded_at : List Trade → ℕ → String
traded_at ts i = elim (get_elem? ts i) [
  | none ↦ ""
  | some t ↦ elim t.traded_at [ none ↦ "" | some s ↦ s ]
]

-- The comparator of `indices.sort`: earlier trades first, and the higher index first at one time.
pub index_le : List Trade → ℕ → ℕ → Bool
index_le ts a b =
    let ta = traded_at ts a in
    let tb = traded_at ts b in
    if text_lt ta tb then true else if text_lt tb ta then false else leb b a

-- `Array.from({ length }, (_, i) => i)`, from `i` on.
pub indices_from : ℕ → ℕ → List ℕ
indices_from i zero = []
indices_from i (suc n) = i ∷ indices_from (suc i) n

unfoldable pub sorted_indices : List Trade → List ℕ
sorted_indices ts = sort (index_le ts) (indices_from 0 (length ts))

-- `side === 'BUY' ? parseFloat(quantity) : -parseFloat(quantity)`
unfoldable pub signed : Side → ℕ → ℤ
signed buy quantity = pos quantity
signed sell quantity = zero_ℤ -ℤ pos quantity

-- The loop of both functions over the sorted indices, `entry` being what it stores for a trade of some
-- side and signed quantity that takes the net position from `prev` to `net`.
module _ {ℓ} {T : Type ℓ} (entry : Side → (qty prev net : ℤ) → T) (ts : List Trade) where
  pub tag_loop : List ℕ → ℤ → List (Option T) → List (Option T)
  tag_loop [] net tags = tags
  tag_loop (i ∷ is) net tags = elim (get_elem? ts i) [
    | none ↦ tags
    | some t ↦
        let qty = signed t.side t.quantity in
        let net' = net +ℤ qty in tag_loop is net' (set tags i (some (entry t.side qty net net')))
  ]

  -- `new Array(len)`, with `none` for a slot that holds nothing, and the loop.
  pub compute_tags : List (Option T)
  unfolding tag_loop
  compute_tags = tag_loop (sorted_indices ts) zero_ℤ (replicate (length ts) none)

unfoldable pub position_tag : Side → ℤ → ℤ → ℤ → PositionTag
position_tag side qty prev net = record {
  tag =
      if is_zero prev && not (is_zero net)
      then some opens
      else if not (is_zero prev) && is_zero net
      then some closes
      else if not (is_zero prev)
      then elim side [ buy ↦ some adds | sell ↦ some reduces ]
      else none;
  net_pos = net;
}

unfoldable pub compute_position_tags : List Trade → List (Option PositionTag)
compute_position_tags [] = []
compute_position_tags (t ∷ ts) = compute_tags position_tag (t ∷ ts)

unfoldable pub direction_of : ℤ → Direction
direction_of net = if is_positive net then long else if is_negative net then short else flat

unfoldable pub futures_tag : ℤ → ℤ → ℤ → Option FuturesTag
futures_tag qty prev net =
    if is_zero prev && is_positive net
    then some open_long
    else if is_zero prev && is_negative net
    then some open_short
    else if is_positive prev && is_zero net
    then some close_long
    else if is_negative prev && is_zero net
    then some close_short
    else if is_positive prev && is_negative net
    then some flip_long_to_short
    else if is_negative prev && is_positive net
    then some flip_short_to_long
    else if is_positive prev && is_positive net
    then (if is_positive qty then some add_long else some reduce_long)
    else if is_negative prev && is_negative net
    then (if is_negative qty then some add_short else some reduce_short)
    else none

unfoldable pub futures_position_tag : Side → ℤ → ℤ → ℤ → FuturesPositionTag
futures_position_tag side qty prev net = record {
  tag = futures_tag qty prev net;
  net_pos = net;
  direction = direction_of net;
}

unfoldable pub compute_futures_position_tags : List Trade → List (Option FuturesPositionTag)
compute_futures_position_tags [] = []
compute_futures_position_tags (t ∷ ts) = compute_tags futures_position_tag (t ∷ ts)
