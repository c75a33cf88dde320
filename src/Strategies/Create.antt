-- ===== src/Strategies/Create.antt =====
-- The form of web/src/components/user/CreateStrategyDialog.tsx: the choice of a strategy and the request
-- that a submission makes. Letters change case in ASCII only.
pub mod Submission
pub mod Live
pub mod Toasts
use bbgo_sass.Prelude.{
  ℕ, ◌-◌, ◌*◌, ◌^◌, Bool, true, false, not, ◌&&◌, ◌||◌, List, [], ◌∷◌, ◌++◌, map, Option, none,
  some, if◌then◌else◌, leb,
}
use bbgo_sass.Prelude.Int.{ℤ, pos}
use bbgo_sass.Prelude.Text.{codes, same_text}
use bbgo_sass.Prelude.Dict.{find_entry, set_entry}
use bbgo_sass.Numbers.{is_zero, is_positive}
use bbgo_sass.Backtest.{leb_ℤ}
use bbgo_sass.Manager.{Mode, live, paper}
use bbgo_sass.Strategies.{
  Text, Value, undefined, null, boolean, number, text, object, Entries, value_at, FieldDef,
  SessionRole, StrategySchema, get_strategy_schema, get_strategy_defaults, ensure_types,
  nest_config, or_default,
}

-- `ENV_PREFIXES`
abbrev pub env_prefixes : List (Text × Text)
env_prefixes =
    (codes "binance", codes "BINANCE")
    ∷ (codes "okex", codes "OKEX")
    ∷ (codes "bybit", codes "BYBIT")
    ∷ (codes "bitget", codes "BITGET")
    ∷ (codes "kucoin", codes "KUCOIN")
    ∷ (codes "max", codes "MAX")
    ∷ (codes "coinbase", codes "COINBASE")
    ∷ (codes "bitfinex", codes "BITFINEX")
    ∷ []

abbrev pub MarginType : Type 0
MarginType = Bool

pub record FuturesConfig : Type 0 where
  pub leverage : ℤ
  pub isolated : MarginType

-- A risk configuration: a field that is unset is `none`.
abbrev pub RiskConfig : Type 0
RiskConfig = List (Text × Option ℤ)

-- The state of the dialog.
pub record Form : Type 0 where
  pub name : Text
  pub exchange : Text
  pub strategy : Text
  pub mode : Mode
  pub config : Entries
  pub futures_config : FuturesConfig
  pub risk_config : RiskConfig
  pub session_exchanges : List (Text × Text)

abbrev pub one : ℤ
one = pos (10 ^ 12)

-- `typeof defaults.leverage === 'number' ? defaults.leverage : 1`
abbrev pub leverage_of : Value → ℤ
leverage_of (number n) = n
leverage_of _ = one

abbrev pub default_sessions : List SessionRole → List (Text × Text)
default_sessions roles = go [] roles
  where
    go : List (Text × Text) → List SessionRole → List (Text × Text)
    go m [] = m
    go m (role ∷ rs) = go (set_entry same_text role.name (codes "binance") m) rs

abbrev pub requires_futures_of : Option StrategySchema → Bool
requires_futures_of none = false
requires_futures_of (some s) = s.requires_futures

abbrev pub live_only_of : Option StrategySchema → Bool
live_only_of none = false
live_only_of (some s) = s.live_only

abbrev pub cross_exchange_of : Option StrategySchema → Bool
cross_exchange_of none = false
cross_exchange_of (some s) = s.cross_exchange

abbrev pub session_roles_of : Option StrategySchema → Option (List SessionRole)
session_roles_of none = none
session_roles_of (some s) = s.session_roles

-- `handleStrategyChange`
unfoldable pub handle_strategy_change : List StrategySchema → Text → Form → Form
handle_strategy_change registry new form =
    let defaults = get_strategy_defaults new registry in
    let schema = get_strategy_schema new registry in
    record form {
      strategy = new;
      config = defaults;
      futures_config = record {
        leverage =
            if requires_futures_of schema
            then leverage_of (value_at (codes "leverage") defaults)
            else one;
        isolated = false;
      };
      mode = if live_only_of schema then live else form.mode;
      session_exchanges = elim (session_roles_of schema) [
        | none ↦ []
        | some roles ↦ default_sessions roles
      ];
    }

-- `val === undefined || val === null || val === '' || val === 0`
abbrev pub is_unset : Value → Bool
is_unset undefined = true
is_unset null = true
is_unset (text []) = true
is_unset (number n) = is_zero n
is_unset _ = false

-- `field.default !== undefined && field.default !== '' && field.default !== 0`
abbrev pub has_default : Value → Bool
has_default undefined = false
has_default (text []) = false
has_default (number n) = not (is_zero n)
has_default _ = true

-- The loop over the fields that are required: the keys that are missing.
unfoldable pub missing_fields : Entries → List FieldDef → List Text
missing_fields config [] = []
missing_fields config (field ∷ fields) =
    let rest = missing_fields config fields in
    if not field.required
    then rest
    else if is_unset (value_at field.key config)
    then (if has_default field.default then rest else field.key ∷ rest)
    else rest

abbrev pub missing_of : Option StrategySchema → Entries → List Text
missing_of none config = []
missing_of (some schema) config = missing_fields config schema.fields

-- `cleanedRisk`
unfoldable pub cleaned_risk : RiskConfig → List (Text × ℤ)
cleaned_risk [] = []
cleaned_risk ((k, none) ∷ risk) = cleaned_risk risk
cleaned_risk ((k, some v) ∷ risk) =
    let rest = cleaned_risk risk in if is_positive v then (k, v) ∷ rest else rest

abbrev pub or_binance : Option Text → Text
or_binance none = codes "binance"
or_binance (some []) = codes "binance"
or_binance (some (c ∷ ex)) = c ∷ ex

abbrev pub upper_case : Text → Text
upper_case = map (λ c. if leb b'a' c && leb c b'z' then c - 32 else c)

pub record SessionRoleConfig : Type 0 where
  pub name : Text
  pub exchange : Text
  pub env_var_prefix : Text
  pub futures : Bool

unfoldable pub session_of : Mode → List (Text × Text) → SessionRole → SessionRoleConfig
session_of mode exchanges role =
    let ex = elim mode as (λ m. Text) [
      | paper ↦ codes "binance"
      | live ↦ or_binance (find_entry same_text role.name exchanges)
    ] in
    record {
      name = role.name;
      exchange = ex;
      env_var_prefix = or_default (upper_case ex) (find_entry same_text ex env_prefixes);
      futures = role.futures;
    }

-- What `createStrategy.mutate` is called with; the optional parts are none where they are left out, and
-- `crossExchange` is sent exactly where there are sessions.
pub record NewStrategy : Type 0 where
  pub user_id : Text
  pub name : Text
  pub exchange : Text
  pub strategy : Text
  pub config : Entries
  pub mode : Mode
  pub sessions : Option (List SessionRoleConfig)
  pub futures_config : Option FuturesConfig
  pub risk_config : Option (List (Text × ℤ))

-- What a submission comes to: a message on the fields that are missing, or a request.
pub data Submitted : Type 0 where
  missing : List Text → Submitted
  created : NewStrategy → Submitted

abbrev pub nonempty_risk : List (Text × ℤ) → Option (List (Text × ℤ))
nonempty_risk [] = none
nonempty_risk (r ∷ rs) = some (r ∷ rs)

-- `isCrossExchange && schema?.sessionRoles`
abbrev pub cross_roles : Option StrategySchema → Option (List SessionRole)
cross_roles schema = if cross_exchange_of schema then session_roles_of schema else none

-- The request of a form, once no field is missing, for the roles of the sessions if it has any.
unfoldable pub new_strategy_for :
    (parse : Text → Option ℤ) (user_id : Text)
    → Option StrategySchema
    → Form
    → Option (List SessionRole)
    → NewStrategy
new_strategy_for parse user_id schema form (some roles) = record {
  user_id = user_id;
  name = form.name;
  exchange = [];
  strategy = form.strategy;
  config = nest_config (ensure_types parse schema form.config);
  mode = form.mode;
  sessions = some (map (session_of form.mode form.session_exchanges) roles);
  futures_config = none;
  risk_config = nonempty_risk (cleaned_risk form.risk_config);
}
new_strategy_for parse user_id schema form none = record {
  user_id = user_id;
  name = form.name;
  exchange = form.exchange;
  strategy = form.strategy;
  config = nest_config (ensure_types parse schema form.config);
  mode = form.mode;
  sessions = none;
  futures_config = if requires_futures_of schema then some form.futures_config else none;
  risk_config = nonempty_risk (cleaned_risk form.risk_config);
}

abbrev pub new_strategy :
    (parse : Text → Option ℤ) (user_id : Text) → Option StrategySchema → Form → NewStrategy
new_strategy parse user_id schema form =
    new_strategy_for parse user_id schema form (cross_roles schema)

unfoldable pub submitted_unless : List Text → NewStrategy → Submitted
submitted_unless [] new = created new
submitted_unless (k ∷ ks) new = missing (k ∷ ks)

-- `handleSubmit`
unfoldable pub handle_submit :
    (parse : Text → Option ℤ) (user_id : Text) → List StrategySchema → Form → Submitted
handle_submit parse user_id registry form =
    let schema = get_strategy_schema form.strategy registry in
    submitted_unless (missing_of schema form.config) (new_strategy parse user_id schema form)

-- `onSave` of web/src/components/user/LeverageEditor.tsx: what it saves, unless the number is out of
-- range; `none` where it is not finite.
unfoldable pub saved_leverage : Option ℤ → Option ℤ
saved_leverage none = none
saved_leverage (some leverage) =
    if leb_ℤ one leverage && leb_ℤ leverage (pos (125 * 10 ^ 12)) then some leverage else none
