-- ===== src/PositionTags/Tests.antt =====
-- Runs of the tags, and the theorems about them at inputs.
use bbgo_sass.Prelude.{ℕ, ◌≡◌, ◌↔◌, refl, List, [], ◌∷◌, Option, none, some, map, length, arith}
use bbgo_sass.Prelude.Int.{ℤ, pos, negsuc, ◌+ℤ◌, ◌-ℤ◌}
use bbgo_sass.Prelude.Sort.{sort}
use bbgo_sass.Prelude.Text.{lex_lt}
use bbgo_sass.Trade.{Side, buy, sell}
use bbgo_sass.PositionTags.{
  Trade, signed, sorted_indices, opens, closes, reduces, position_tag, compute_position_tags,
  FuturesTag, open_long, flip_long_to_short, close_short, Direction, long, short, flat,
  FuturesPositionTag, futures_tag, futures_position_tag, compute_futures_position_tags,
  direction_of, compute_tags, index_le, traded_at, indices_from,
}
use bbgo_sass.PositionTags.Spot.{HasTag, compute_position_tags-HasTag}
use bbgo_sass.PositionTags.Futures.{Moves, futures_tag_iff}

abbrev trade : Side → ℕ → Trade
trade side quantity = record {
  side = side;
  quantity = quantity;
  traded_at = some "2024-01-01T00:00:00Z";
}

-- All at one time, so the last of the list is taken first.
abbrev trades : List Trade
trades = trade buy 2 ∷ trade sell 7 ∷ trade buy 5 ∷ []

abbrev entry : FuturesTag → ℤ → Direction → Option FuturesPositionTag
entry tag net direction = some (record { tag = some tag; net_pos = net; direction = direction })

futures_runs :
    compute_futures_position_tags trades
    ≡ entry close_short (pos 0) flat
      ∷ entry flip_long_to_short (negsuc 1) short
      ∷ entry open_long (pos 5) long
      ∷ []
unfolding compute_futures_position_tags compute_tags sorted_indices sort indices_from index_le
    lex_lt traded_at futures_position_tag futures_tag ◌+ℤ◌ direction_of signed ◌-ℤ◌
futures_runs = refl

spot_runs :
    map (λ e. elim e [ none ↦ none | some p ↦ p.tag ]) (compute_position_tags trades)
    ≡ some closes ∷ some reduces ∷ some opens ∷ []
unfolding compute_position_tags compute_tags sorted_indices sort indices_from index_le lex_lt
    traded_at position_tag ◌+ℤ◌ signed ◌-ℤ◌
spot_runs = refl

compute_position_tags-HasTag_example :
    (length (compute_position_tags trades) ≡ 3) × HasTag trades (compute_position_tags trades) 1
compute_position_tags-HasTag_example = compute_position_tags-HasTag trades 1 (omega arith)

futures_tag_iff_example :
    (futures_tag (negsuc 6) (pos 5) (pos 5 +ℤ negsuc 6) ≡ some flip_long_to_short)
    ↔ Moves (some flip_long_to_short) (pos 5) (pos 5 +ℤ negsuc 6)
futures_tag_iff_example = futures_tag_iff (some flip_long_to_short) (pos 5) (negsuc 6)
