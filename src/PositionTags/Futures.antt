-- ===== src/PositionTags/Futures.antt =====
-- What the tags of futures say of the net position.
use bbgo_sass.Prelude.{◌+◌, ◌<◌, ◌≡◌, ◌↔◌, Option, none, some, arith, subst}
use bbgo_sass.Prelude.Int.{ℤ, pos, negsuc, ◌+ℤ◌, ◌≤ℤ◌, pos_part, neg_part}
use bbgo_sass.PositionTags.{
  FuturesTag, open_long, close_long, open_short, close_short, add_long, reduce_long, add_short,
  reduce_short, flip_long_to_short, flip_short_to_long, plain, long, short, flat, futures_tag,
  direction_of,
}

infix 50 ◌<ℤ◌
abbrev pub ◌<ℤ◌ : ℤ → ℤ → Type 0
a <ℤ b = pos_part a + neg_part b < pos_part b + neg_part a

-- The moves of the net position that a tag stands for.
abbrev pub Moves : Option FuturesTag → ℤ → ℤ → Type 0
Moves (some open_long) prev net = (prev ≡ pos 0) × (pos 0 <ℤ net)
Moves (some open_short) prev net = (prev ≡ pos 0) × (net <ℤ pos 0)
Moves (some close_long) prev net = (pos 0 <ℤ prev) × (net ≡ pos 0)
Moves (some close_short) prev net = (prev <ℤ pos 0) × (net ≡ pos 0)
Moves (some flip_long_to_short) prev net = (pos 0 <ℤ prev) × (net <ℤ pos 0)
Moves (some flip_short_to_long) prev net = (prev <ℤ pos 0) × (pos 0 <ℤ net)
Moves (some add_long) prev net = (pos 0 <ℤ prev) × (prev <ℤ net)
Moves (some reduce_long) prev net = (pos 0 <ℤ net) × (net ≤ℤ prev)
Moves (some add_short) prev net = (net <ℤ prev) × (prev <ℤ pos 0)
Moves (some reduce_short) prev net = (prev ≤ℤ net) × (net <ℤ pos 0)
Moves (some plain) prev net = ⊥
Moves none prev net = (prev ≡ pos 0) × (net ≡ pos 0)

-- The tag stands for the move.
tag-Moves : (prev qty : ℤ) → Moves (futures_tag qty prev (prev +ℤ qty)) prev (prev +ℤ qty)
unfolding futures_tag ◌+ℤ◌
tag-Moves (pos m) (pos n) = ground arith
tag-Moves (pos m) (negsuc n) = ground arith
tag-Moves (negsuc m) (pos n) = ground arith
tag-Moves (negsuc m) (negsuc n) = ground arith

-- No other tag does.
Moves-tag :
    (m : Option FuturesTag) (prev qty : ℤ)
    → Moves m prev (prev +ℤ qty)
    → futures_tag qty prev (prev +ℤ qty) ≡ m
unfolding futures_tag ◌+ℤ◌
Moves-tag (some plain) prev qty h = elim h [ ]
Moves-tag m (pos a) (pos b) h = ground arith
Moves-tag m (pos a) (negsuc b) h = ground arith
Moves-tag m (negsuc a) (pos b) h = ground arith
Moves-tag m (negsuc a) (negsuc b) h = ground arith

-- A trade of the signed quantity `qty` gets the tag `m` (`none` for no tag) exactly when its move from
-- `prev` is of the kind that `m` stands for: opening from flat, closing to flat, flipping the sign, or,
-- on one side of flat, growing (`add`) or not growing (`reduce`). No trade gets the tag `plain`.
pub futures_tag_iff :
    (m : Option FuturesTag) (prev qty : ℤ)
    → (futures_tag qty prev (prev +ℤ qty) ≡ m) ↔ Moves m prev (prev +ℤ qty)
futures_tag_iff m prev qty =
    (λ e. subst (λ k. Moves k prev (prev +ℤ qty)) e (tag-Moves prev qty), Moves-tag m prev qty)

-- The direction is that of the sign of the net position.
pub direction_of_iff :
    (net : ℤ)
    → ((direction_of net ≡ long) ↔ (pos 0 <ℤ net))
      × ((direction_of net ≡ short) ↔ (net <ℤ pos 0))
      × ((direction_of net ≡ flat) ↔ (net ≡ pos 0))
unfolding direction_of
direction_of_iff (pos n) = ground arith
direction_of_iff (negsuc n) = ground arith
