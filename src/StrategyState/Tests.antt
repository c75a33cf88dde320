-- ===== src/StrategyState/Tests.antt =====
-- Runs on states of strategies, and the theorem about the lines of a grid at an input.
use bbgo_sass.Prelude.{arith, ◌*◌, ◌≡◌, refl, [], ◌∷◌, none, some}
use bbgo_sass.Prelude.Int.{pos, ◌+ℤ◌, ◌-ℤ◌, ◌*ℤ◌}
use bbgo_sass.Prelude.Text.{codes, same_text}
use bbgo_sass.Strategies.{number, text, object, Entries, empty, entry, value_at}
use bbgo_sass.StrategyState.{
  bound, near, unit, extract_grid_lines, lines_of, lines_from, grid_line, is_near,
  get_strategy_category, is_in, maker, num_val, get_inner_state,
}
use bbgo_sass.StrategyState.Grid.{HasGrid, AreSpaced, extract_grid_lines-AreSpaced}
use bbgo_sass.StrategyState.Details.{
  number_value, text_value, number_format, raw_format, no_color, extract_strategy_details,
  details_of, category_fields, extract_maker_fields, position_fields, grid_profit_fields,
  profit_fields,
}

abbrev grid2 : Entries
grid2 = entry (codes "upperPrice") (number (pos (30 * unit))) (
    entry (codes "lowerPrice") (number (pos (10 * unit)))
      (entry (codes "gridNumber") (number (pos (2 * unit))) empty))

-- Prices times the number of grids, both in units.
grid_run :
    extract_grid_lines (entry (codes "grid2") (object grid2) empty) (some (pos (21 * unit)))
    ≡ record { price = pos (20 * unit * unit); color = bound }
      ∷ record { price = pos (40 * unit * unit); color = near }
      ∷ record { price = pos (60 * unit * unit); color = bound }
      ∷ []
unfolding extract_grid_lines lines_of lines_from grid_line is_near value_at same_text ◌+ℤ◌ ◌-ℤ◌ ◌*ℤ◌
grid_run = refl

abbrev grid_state : Entries
grid_state = entry (codes "grid2") (object grid2) empty

grid_state-HasGrid : HasGrid grid_state (pos (30 * unit)) (pos (10 * unit)) (2 * unit)
unfolding value_at same_text
grid_state-HasGrid = record {
  grid2 = grid2;
  found = refl;
  upper_price = refl;
  lower_price = refl;
  grid_number = refl;
  has_upper = refl;
  has_lower = refl;
  has_grids = omega arith;
}

extract_grid_lines-AreSpaced_example :
    AreSpaced (pos (30 * unit)) (pos (10 * unit)) (2 * unit) (extract_grid_lines grid_state none)
extract_grid_lines-AreSpaced_example =
    extract_grid_lines-AreSpaced grid_state (pos (30 * unit)) (pos (10 * unit)) (2 * unit) none
      grid_state-HasGrid

abbrev fmaker : Entries
fmaker = entry (codes "strategy") (text (codes "fmaker")) (
    entry (codes "fmaker")
      (object (
        entry (codes "spread") (number (pos 5))
          (entry (codes "interval") (text (codes "1m")) empty)))
      empty)

details_run :
    extract_strategy_details (λ s. none) (λ n v. []) (λ v. []) (λ v. []) fmaker
    ≡ some (record {
      strategy = codes "fmaker";
      category = maker;
      fields =
          record {
            key = codes "spread";
            label = codes "spread";
            value = number_value (pos 5);
            format = number_format;
            color = no_color;
          }
          ∷ record {
            key = codes "interval";
            label = codes "interval";
            value = text_value (codes "1m");
            format = raw_format;
            color = no_color;
          }
          ∷ [];
    })
unfolding extract_strategy_details details_of category_fields extract_maker_fields position_fields
    grid_profit_fields profit_fields get_strategy_category is_in num_val get_inner_state value_at
    same_text
details_run = refl
