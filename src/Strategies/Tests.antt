-- ===== src/Strategies/Tests.antt =====
-- Runs of the configuration, and the theorems about it at inputs.
use bbgo_sass.Prelude.{◌^◌, ◌≡◌, ◌↔◌, refl, true, false, [], ◌∷◌, Option, none, some, All, arith}
use bbgo_sass.Prelude.Int.{ℤ, pos}
use bbgo_sass.Prelude.Text.{codes, same_text, split, split_from}
use bbgo_sass.Manager.{live, paper}
use bbgo_sass.Strategies.{
  Text, boolean, number, text, object, Entries, empty, entry, value_at, put, set_nested,
  set_nested_value, nest_loop, nest_config, FieldDef, number_field, boolean_field, StrategySchema,
  get_strategy_schema, get_strategy_defaults, defaults_loop, put_finite, put_boolean, ensure_number,
  ensure_boolean, ensure_field, ensure_loop, ensure_types, number_of,
}
use bbgo_sass.Strategies.Nesting.{Reads, HasApartKeys, are_apart, nest_config-Reads}
use bbgo_sass.Strategies.Typing.{AreTyped, ensure_types-AreTyped}
use bbgo_sass.Strategies.Create.{Form, handle_submit, handle_strategy_change, new_strategy, created}
use bbgo_sass.Strategies.Create.Submission.{IsSafe, IsFilled, fields_of, handle_submit-IsSafe}
use bbgo_sass.Strategies.Create.Live.{
  here, step, chosen, IsLiveWhereNeeded, Reaches-IsLiveWhereNeeded,
}

abbrev parse : Text → Option ℤ
parse s = some (pos 5)

-- A boolean field whose key has a dot, and a number field.
abbrev compound : FieldDef
compound = record {
  key = codes "exit.compound";
  kind = boolean_field;
  default = boolean true;
  required = false;
}

abbrev quantity : FieldDef
quantity = record {
  key = codes "quantity";
  kind = number_field;
  default = number (pos 0);
  required = true;
}

abbrev grid : StrategySchema
grid = record {
  id = codes "grid2";
  label = codes "Grid";
  description = [];
  category = codes "grid";
  supported_exchanges = [];
  fields = compound ∷ quantity ∷ [];
  cross_exchange = false;
  session_roles = none;
  live_only = true;
  requires_futures = false;
}

abbrev defaults : Entries
defaults =
    entry (codes "exit") (object (entry (codes "compound") (boolean true) empty))
      (entry (codes "quantity") (number (pos 0)) empty)

defaults_run : get_strategy_defaults (codes "grid2") (grid ∷ []) ≡ defaults
unfolding get_strategy_defaults get_strategy_schema defaults_loop set_nested_value set_nested put
    value_at same_text split split_from
defaults_run = refl

-- Sent as the form has it, the default `true` of a key with a dot arrives as `false`.
defaults_sent :
    nest_config (ensure_types parse (some grid) defaults)
    ≡ entry
        (codes "exit")
        (object (entry (codes "compound") (boolean false) empty))
        (entry (codes "quantity") (number (pos 0)) empty)
unfolding nest_config nest_loop ensure_types ensure_loop ensure_field ensure_boolean put_boolean
    ensure_number put_finite number_of set_nested_value set_nested put value_at same_text split
    split_from
defaults_sent = refl

abbrev flat : Entries
flat =
    entry (codes "a.b") (text (codes "1m"))
      (entry (codes "a.c") (text []) (entry (codes "d") (boolean false) empty))

flat_apart : HasApartKeys flat
unfolding are_apart same_text split split_from
flat_apart = ((refl, (refl, tt)), ((refl, tt), (tt, tt)))

nest_config-Reads_example : Reads empty (nest_config flat) flat
nest_config-Reads_example = nest_config-Reads flat flat_apart

ensure_types-AreTyped_example :
    AreTyped parse grid.fields defaults (ensure_types parse (some grid) defaults)
unfolding same_text
ensure_types-AreTyped_example = ensure_types-AreTyped parse grid defaults ((refl, tt), (tt, tt))

abbrev form : Form
form = record {
  name = codes "bot";
  exchange = codes "okex";
  strategy = codes "grid2";
  mode = live;
  config = defaults;
  futures_config = record { leverage = pos (10 ^ 12); isolated = false };
  risk_config = (codes "stopLossPrice", some (pos 0)) ∷ [];
  session_exchanges = [];
}

handle_submit-IsSafe_example :
    ((handle_submit parse (codes "u") (grid ∷ []) form
        ≡ created
            (new_strategy parse (codes "u") (get_strategy_schema (codes "grid2") (grid ∷ [])) form))
      ↔ All (IsFilled defaults) (fields_of (get_strategy_schema (codes "grid2") (grid ∷ []))))
    × IsSafe form
        (new_strategy parse (codes "u") (get_strategy_schema (codes "grid2") (grid ∷ [])) form)
handle_submit-IsSafe_example = handle_submit-IsSafe parse (codes "u") (grid ∷ []) form

-- In paper mode, with a strategy that the registry lacks.
abbrev paper_form : Form
paper_form = record form { strategy = codes "dca"; mode = paper }

abbrev chosen_grid : Form
chosen_grid = handle_strategy_change (grid ∷ []) (codes "grid2") paper_form

starts_well : IsLiveWhereNeeded (grid ∷ []) paper_form
unfolding get_strategy_schema same_text
starts_well = λ e. absurd (ground arith)

Reaches-IsLiveWhereNeeded_example : IsLiveWhereNeeded (grid ∷ []) chosen_grid
Reaches-IsLiveWhereNeeded_example =
    Reaches-IsLiveWhereNeeded {registry = grid ∷ []} {f = paper_form} {g = chosen_grid} starts_well
      (step here (chosen (codes "grid2")))
