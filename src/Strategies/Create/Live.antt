-- ===== src/Strategies/Create/Live.antt =====
-- The mode of the dialog's form.
use bbgo_sass.Prelude.{◌≡◌, Bool, true, false, ◌&&◌, List, arith, Option}
use bbgo_sass.Manager.{Mode, live, paper}
use bbgo_sass.Strategies.{Text, StrategySchema, get_strategy_schema, Entries}
use bbgo_sass.Strategies.Create.{
  Form, RiskConfig, FuturesConfig, live_only_of, handle_strategy_change,
}

-- The buttons of the mode: the one for paper is disabled for a strategy that is live only.
abbrev pub is_paper : Mode → Bool
is_paper live = false
is_paper paper = true

abbrev pub schema_of : List StrategySchema → Form → Option StrategySchema
schema_of registry form = get_strategy_schema form.strategy registry

-- What the user can do with the form.
pub data Step (registry : List StrategySchema) (form : Form) : Form → Type 0 where
  named : (name : Text) → Step registry form (record form { name = name })
  traded_on : (exchange : Text) → Step registry form (record form { exchange = exchange })
  chosen : (new : Text) → Step registry form (handle_strategy_change registry new form)
  switched :
      (mode : Mode)
      → (live_only_of (schema_of registry form) && is_paper mode) ≡ false
      → Step registry form (record form { mode = mode })
  configured : (config : Entries) → Step registry form (record form { config = config })
  risked : (risk : RiskConfig) → Step registry form (record form { risk_config = risk })
  margined :
      (futures : FuturesConfig) → Step registry form (record form { futures_config = futures })
  sessioned :
      (exchanges : List (Text × Text))
      → Step registry form (record form { session_exchanges = exchanges })

pub data Reaches (registry : List StrategySchema) : Form → Form → Type 0 where
  here : {f : Form} → Reaches registry f f
  step : {f g h : Form} → Reaches registry f g → Step registry g h → Reaches registry f h

-- A form for a strategy that is live only is in live mode.
abbrev pub IsLiveWhereNeeded : List StrategySchema → Form → Type 0
IsLiveWhereNeeded registry form =
    live_only_of (schema_of registry form) ≡ true → is_paper form.mode ≡ false

Step-IsLiveWhereNeeded :
    {registry : List StrategySchema} {f g : Form}
    → IsLiveWhereNeeded registry f
    → Step registry f g
    → IsLiveWhereNeeded registry g
unfolding handle_strategy_change
Step-IsLiveWhereNeeded h (named n) = h
Step-IsLiveWhereNeeded h (traded_on e) = h
Step-IsLiveWhereNeeded {registry} h (chosen new) = λ e. rw e
Step-IsLiveWhereNeeded h (switched m e) = λ k. ground (arith, e, k)
Step-IsLiveWhereNeeded h (configured c) = h
Step-IsLiveWhereNeeded h (risked c) = h
Step-IsLiveWhereNeeded h (margined c) = h
Step-IsLiveWhereNeeded h (sessioned c) = h

-- If the form starts in live mode or with a strategy that is not live only, then however the user goes on,
-- a form for a strategy that is live only is in live mode.
pub Reaches-IsLiveWhereNeeded :
    {registry : List StrategySchema} {f g : Form}
    → IsLiveWhereNeeded registry f
    → Reaches registry f g
    → IsLiveWhereNeeded registry g
Reaches-IsLiveWhereNeeded h here = h
Reaches-IsLiveWhereNeeded h (step r s) = Step-IsLiveWhereNeeded (Reaches-IsLiveWhereNeeded h r) s
