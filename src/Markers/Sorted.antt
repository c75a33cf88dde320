-- ===== src/Markers/Sorted.antt =====
-- The order and the labels of the markers of web/src/lib/bbgo/trade-markers.ts.
use mathlib.Core.List.Perm
use bbgo_sass.Prelude.{
  Perm, sym, subst, ◌&&◌, ◌||◌, not, if◌then◌else◌, ℕ, ◌≡◌, refl, Bool, true, false, List, [], ◌∷◌,
  map, Option, none, some, String, arith, ap, ◌∙◌, Bool-cases, inl, inr, All, length, take,
  length-map,
}
use bbgo_sass.Prelude.Sort.{sort, insert_sorted, sort-perm, IsSorted, sort-IsSorted}
use bbgo_sass.Prelude.Text.{codes, same_text}
use bbgo_sass.Prelude.Dict.{find_entry}
use bbgo_sass.PositionTags.{compute_position_tags, compute_futures_position_tags}
use bbgo_sass.PositionTags.Net.{length-compute_position_tags, length-compute_futures_position_tags}
use bbgo_sass.Trade.{Side}
use bbgo_sass.Adapters.{Text, BbgoTrade}
use bbgo_sass.Markers.{
  TradeMarker, action_tags, or_trade, position_action_to_tag, trades_of, marker_le, has_server_pa,
  write_tags, marker_of, computed_tags, sorted_markers, build_trade_markers, spot_tag,
  futures_tag_of, is_tagged, side_of, input_of,
}

abbrev pub is_blank : Text → Bool
is_blank [] = true
is_blank (c ∷ s) = false

-- A value that is found has what all values have.
find_entry-All :
    (P : Text → Type 0) (k : Text) (m : List (Text × Text))
    → All (λ e. P e.1) m
    → P (codes "trade")
    → P (or_trade (find_entry same_text k m))
unfolding find_entry
find_entry-All P k [] h d = d
find_entry-All P k ((j, v) ∷ m) h d = elim (Bool-cases (same_text j k)) [
  | inl e ↦ rw e h.0
  | inr e ↦ rw e (find_entry-All P k m h.1 d)
]

action_labelled : (action : Option Text) → is_blank (position_action_to_tag action) ≡ false
unfolding position_action_to_tag
action_labelled none = refl
action_labelled (some []) = refl
action_labelled (some (c ∷ action)) =
    find_entry-All (λ t. is_blank t ≡ false) (c ∷ action) action_tags
      (
        refl,
        (
          refl,
          (
            refl,
            (
              refl,
              (refl, (refl, (refl, (refl, (refl, (refl, (refl, (refl, (refl, (refl, tt)))))))))),
            ),
          ),
        ),
      )
      refl

-- Times stay, so the order does.
write_tags-later :
    (m : TradeMarker) (tags : List (Option Text)) (ms : List TradeMarker)
    → All (λ n. marker_le m n ≡ true) ms
    → All (λ n. marker_le m n ≡ true) (write_tags tags ms)
unfolding write_tags
write_tags-later m tags [] h = tt
write_tags-later m [] (n ∷ ms) h = h
write_tags-later m (t ∷ tags) (n ∷ ms) h = (h.0, write_tags-later m tags ms h.1)

write_tags-IsSorted :
    (tags : List (Option Text)) (ms : List TradeMarker)
    → IsSorted marker_le ms
    → IsSorted marker_le (write_tags tags ms)
unfolding write_tags
write_tags-IsSorted tags [] h = tt
write_tags-IsSorted [] (m ∷ ms) h = h
write_tags-IsSorted (t ∷ tags) (m ∷ ms) h =
    (write_tags-later m tags ms h.0, write_tags-IsSorted tags ms h.1)

-- The time, side, price and quantity of a marker, and its label.
abbrev pub Figures : Type 0
Figures = ℕ × Side × ℕ × ℕ

abbrev pub figures_of : TradeMarker → Figures
figures_of m = (m.time, m.side, m.price, m.quantity)

abbrev pub label_of : TradeMarker → Text
label_of m = m.position_action

abbrev pub labelled : TradeMarker → Figures × Text
labelled m = (figures_of m, m.position_action)

figures-write_tags :
    (tags : List (Option Text)) (ms : List TradeMarker)
    → map figures_of (write_tags tags ms) ≡ map figures_of ms
unfolding write_tags
figures-write_tags tags [] = refl
figures-write_tags [] (m ∷ ms) = refl
figures-write_tags (t ∷ tags) (m ∷ ms) = ap (λ l. figures_of m ∷ l) (figures-write_tags tags ms)

labels-write_tags :
    (tags : List (Option Text)) (ms : List TradeMarker)
    → length tags ≡ length ms
    → map label_of (write_tags tags ms) ≡ map or_trade tags
unfolding write_tags
labels-write_tags [] [] h = refl
labels-write_tags (t ∷ tags) [] h = absurd (omega (arith, h))
labels-write_tags [] (m ∷ ms) h = absurd (omega (arith, h))
labels-write_tags (t ∷ tags) (m ∷ ms) h =
    ap (λ l. or_trade t ∷ l) (labels-write_tags tags ms (omega (arith, h)))

map-map {ℓ κ μ} :
    {A : Type ℓ} {B : Type κ} {C : Type μ} (f : A → B) (g : B → C) (xs : List A)
    → map g (map f xs) ≡ map (λ x. g (f x)) xs
map-map f g [] = refl
map-map f g (x ∷ xs) = ap (λ l. g (f x) ∷ l) (map-map f g xs)

or_swap : (a b c : Bool) → (a || (b || c)) ≡ (b || (a || c))
or_swap a b c = ground arith

has_server_pa-insert_sorted :
    (m : TradeMarker) (ms : List TradeMarker)
    → has_server_pa (insert_sorted marker_le m ms) ≡ (is_tagged m || has_server_pa ms)
unfolding insert_sorted has_server_pa
has_server_pa-insert_sorted m [] = refl
has_server_pa-insert_sorted m (n ∷ ms) = elim (Bool-cases (marker_le m n)) [
  | inl e ↦ rw e
  | inr e ↦ rw (e, has_server_pa-insert_sorted m ms) (or_swap (is_tagged n) (is_tagged m) _)
]

has_server_pa-sort : (ms : List TradeMarker) → has_server_pa (sort marker_le ms) ≡ has_server_pa ms
unfolding sort has_server_pa
has_server_pa-sort [] = refl
has_server_pa-sort (m ∷ ms) =
    has_server_pa-insert_sorted m (sort marker_le ms)
    ∙ ap (λ b. is_tagged m || b) (has_server_pa-sort ms)

-- Does one of the trades have an action that names a tag?
unfoldable pub has_action : List BbgoTrade → Bool
has_action [] = false
has_action (t ∷ ts) =
    not (same_text (position_action_to_tag t.position_action) (codes "trade")) || has_action ts

tagged :
    (label : Text)
    → is_blank label ≡ false
    → (not (same_text label []) && not (same_text label (codes "trade")))
      ≡ not (same_text label (codes "trade"))
unfolding same_text
tagged [] h = absurd (ground (arith, h))
tagged (c ∷ label) h = refl

module _ (parse_float : Text → ℕ) (seconds : Text → ℕ) (time_text : ℕ → String) where
  abbrev pub trade_figures : BbgoTrade → Figures
  trade_figures t =
      (seconds t.traded_at, side_of t.side, parse_float t.price, parse_float t.quantity)

  abbrev pub trade_labelled : BbgoTrade → Figures × Text
  trade_labelled t = (trade_figures t, position_action_to_tag t.position_action)

  -- What the labels are, by whether an action of the server names a tag.
  abbrev pub HasLabels : Bool → List BbgoTrade → Bool → List TradeMarker → Type 0
  HasLabels is_futures shown true ms = Perm (map labelled ms) (map trade_labelled shown)
  HasLabels is_futures shown false ms =
      map label_of ms ≡ map or_trade (computed_tags parse_float seconds time_text is_futures ms)

  has_server_pa-markers :
      (ts : List BbgoTrade)
      → has_server_pa (map (marker_of parse_float seconds time_text) ts) ≡ has_action ts
  unfolding has_server_pa has_action
  has_server_pa-markers [] = refl
  has_server_pa-markers (t ∷ ts) =
      ap (λ b. b || has_server_pa (map (marker_of parse_float seconds time_text) ts))
        (tagged (position_action_to_tag t.position_action) (action_labelled t.position_action))
      ∙ ap (λ b. not (same_text (position_action_to_tag t.position_action) (codes "trade")) || b)
          (has_server_pa-markers ts)

  inputs-write_tags :
      (tags : List (Option Text)) (ms : List TradeMarker)
      → map {A = TradeMarker} (input_of parse_float seconds time_text) (write_tags tags ms)
        ≡ map (input_of parse_float seconds time_text) ms
  unfolding write_tags
  inputs-write_tags tags [] = refl
  inputs-write_tags [] (m ∷ ms) = refl
  inputs-write_tags (t ∷ tags) (m ∷ ms) =
      ap (λ l. input_of parse_float seconds time_text m ∷ l) (inputs-write_tags tags ms)

  computed_tags-write_tags :
      (is_futures : Bool) (tags : List (Option Text)) (ms : List TradeMarker)
      → computed_tags parse_float seconds time_text is_futures (write_tags tags ms)
        ≡ computed_tags parse_float seconds time_text is_futures ms
  computed_tags-write_tags is_futures tags ms =
      ap
        (λ input.
          if is_futures
          then map futures_tag_of (compute_futures_position_tags input)
          else map spot_tag (compute_position_tags input))
        (inputs-write_tags tags ms)

  length-computed_tags :
      (is_futures : Bool) (ms : List TradeMarker)
      → length (computed_tags parse_float seconds time_text is_futures ms) ≡ length ms
  length-computed_tags true ms =
      let input = map {A = TradeMarker} (input_of parse_float seconds time_text) ms in
      length-map (compute_futures_position_tags input) futures_tag_of
      ∙ length-compute_futures_position_tags input
      ∙ length-map ms (input_of parse_float seconds time_text)
  length-computed_tags false ms =
      let input = map {A = TradeMarker} (input_of parse_float seconds time_text) ms in
      length-map (compute_position_tags input) spot_tag
      ∙ length-compute_position_tags input
      ∙ length-map ms (input_of parse_float seconds time_text)

  sorted_markers-IsSorted :
      (symbol : Text) (trades : List BbgoTrade)
      → IsSorted marker_le (sorted_markers parse_float seconds time_text symbol trades)
  unfolding sorted_markers
  sorted_markers-IsSorted symbol trades =
      sort-IsSorted marker_le (λ a b e. ground arith) (λ a b c e f. ground arith) _

  sorted_labels :
      (symbol : Text) (trades : List BbgoTrade)
      → let shown = take 200 (trades_of symbol trades) in
        Perm
          (map figures_of (sorted_markers parse_float seconds time_text symbol trades))
          (map trade_figures shown)
        × Perm
            (map labelled (sorted_markers parse_float seconds time_text symbol trades))
            (map trade_labelled shown)
  unfolding sorted_markers
  sorted_labels symbol trades =
      let shown = take 200 (trades_of symbol trades) in
      let markers = map (marker_of parse_float seconds time_text) shown in
      (
        subst (λ l. Perm (map figures_of (sort marker_le markers)) l)
            (map-map (marker_of parse_float seconds time_text) figures_of shown)
            (Perm.map figures_of (sort-perm marker_le markers)),
        subst (λ l. Perm (map labelled (sort marker_le markers)) l)
            (map-map (marker_of parse_float seconds time_text) labelled shown)
            (Perm.map labelled (sort-perm marker_le markers)),
      )

  -- Does a trade come with an action of the server that names a tag?
  has_action-sorted :
      (symbol : Text) (trades : List BbgoTrade)
      → has_server_pa (sorted_markers parse_float seconds time_text symbol trades)
        ≡ has_action (take 200 (trades_of symbol trades))
  unfolding sorted_markers
  has_action-sorted symbol trades =
      let shown = take 200 (trades_of symbol trades) in
      has_server_pa-sort (map (marker_of parse_float seconds time_text) shown)
      ∙ has_server_pa-markers shown

  computed_labels :
      (is_futures : Bool) (ms : List TradeMarker)
      → let tags = computed_tags parse_float seconds time_text is_futures ms in
        map label_of (write_tags tags ms)
        ≡ map or_trade (computed_tags parse_float seconds time_text is_futures (write_tags tags ms))
  computed_labels is_futures ms =
      let tags = computed_tags parse_float seconds time_text is_futures ms in
      labels-write_tags tags ms (length-computed_tags is_futures ms)
      ∙ ap (map or_trade) (sym (computed_tags-write_tags is_futures tags ms))

  -- In the order of time; the figures are those of the trades, each once; and the labels are those of the
  -- actions, or computed from the markers.
  pub record AreMarkers (shown : List BbgoTrade) (is_futures : Bool) (ms : List TradeMarker)
      : Type 0 where
    pub ordered : IsSorted marker_le ms
    pub figures : Perm (map figures_of ms) (map trade_figures shown)
    pub labels : HasLabels is_futures shown (has_action shown) ms

  -- The markers of a chart are in order of time. Their times, sides, prices and quantities are, up to their
  -- order, those of the first 200 trades of the symbol. If one of these trades has an action of the
  -- server that names a tag, each marker has the label of its own trade's action; else the labels are the
  -- tags that `computePositionTags`, or `computeFuturesPositionTags` for futures, gives for the markers in
  -- their order, and "trade" where it gives none.
  pub build_trade_markers-AreMarkers :
      (trades : List BbgoTrade) (symbol : Text) (is_futures : Bool)
      → AreMarkers
          (take 200 (trades_of symbol trades))
          is_futures
          (build_trade_markers parse_float seconds time_text (some trades) symbol is_futures)
  unfolding build_trade_markers
  build_trade_markers-AreMarkers trades symbol is_futures =
      let sorted = sorted_markers parse_float seconds time_text symbol trades in
      let shown = take 200 (trades_of symbol trades) in
      let tags = computed_tags parse_float seconds time_text is_futures sorted in
      let in_order = sorted_markers-IsSorted symbol trades in
      let (figures, labels) = sorted_labels symbol trades in
      let same = has_action-sorted symbol trades in
      elim (Bool-cases (has_server_pa sorted)) [
        | inl e ↦ rw e (record {
          ordered = in_order;
          figures = figures;
          labels = subst (λ b. HasLabels is_futures shown b sorted) (sym e ∙ same) labels;
        })
        | inr e ↦ rw e (record {
          ordered = write_tags-IsSorted tags sorted in_order;
          figures =
              subst (λ l. Perm l (map trade_figures shown)) (sym (figures-write_tags tags sorted))
                figures;
          labels =
              subst (λ b. HasLabels is_futures shown b (write_tags tags sorted)) (sym e ∙ same)
                (computed_labels is_futures sorted);
        })
      ]
