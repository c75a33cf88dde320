-- ===== src/Strategies.antt =====
-- web/src/lib/bbgo/strategies.ts: the schema of a strategy, its defaults, and the configuration that a form
-- makes of them. Numbers are in units of 1e-12 and finite; a configuration holds no arrays, and no key is
-- a number or a name of `Object.prototype`. An object that is mutated in place is given its new value:
-- the configuration handed to `nestConfig` is not read again.
pub mod Create
pub mod Nesting
pub mod Typing
mod Tests
use bbgo_sass.Prelude.{
  ℕ, ◌^◌, Bool, true, false, not, ◌&&◌, ◌||◌, List, [], ◌∷◌, ◌++◌, map, Option, none, some,
  if◌then◌else◌,
}
use bbgo_sass.Prelude.Int.{ℤ, pos}
use bbgo_sass.Prelude.Text.{codes, same_text, split}
use bbgo_sass.Prelude.Dict.{find_entry, set_entry}
use bbgo_sass.Numbers.{is_zero}

abbrev pub Text : Type 0
Text = List ℕ

-- A value of a configuration, and an object as its entries in order.
mutual
  pub data Value : Type 0 where
    undefined null : Value
    boolean : Bool → Value
    number : ℤ → Value
    text : Text → Value
    object : Entries → Value

  pub data Entries : Type 0 where
    empty : Entries
    entry : Text → Value → Entries → Entries

-- `obj[key]`
unfoldable pub value_at : Text → Entries → Value
value_at key empty = undefined
value_at key (entry k v es) = let rest = value_at key es in if same_text k key then v else rest

-- `obj[key] = value`
unfoldable pub put : Text → Value → Entries → Entries
put key value empty = entry key value empty
put key value (entry k v es) =
    let rest = put key value es in if same_text k key then entry k value es else entry k v rest

-- `delete obj[key]`
unfoldable pub remove : Text → Entries → Entries
remove key empty = empty
remove key (entry k v es) =
    let rest = remove key es in if same_text k key then rest else entry k v rest

-- `current[key]` where it is an object, a new one otherwise.
abbrev pub child : Value → Entries
child (object es) = es
child _ = empty

-- `setNestedValue`, for the parts of the path.
unfoldable pub set_nested : List Text → Value → Entries → Entries
set_nested [] value obj = obj
set_nested (key ∷ keys) value obj = elim keys as (λ ks. Entries) [
  | [] ↦ put key value obj
  | k ∷ ks ↦ put key (object (set_nested keys value (child (value_at key obj)))) obj
]

abbrev pub path_of : Text → List Text
path_of key = split b'.' key

unfoldable pub set_nested_value : Entries → Text → Value → Entries
set_nested_value obj path value = set_nested (path_of path) value obj

abbrev pub is_skipped : Value → Bool
is_skipped undefined = true
is_skipped null = true
is_skipped (text []) = true
is_skipped _ = false

-- The loop of `nestConfig`.
unfoldable pub nest_loop : Entries → Entries → Entries
nest_loop result empty = result
nest_loop result (entry key value config) =
    let skipped = nest_loop result config in
    let written = nest_loop (set_nested_value result key value) config in
    if is_skipped value then skipped else written

unfoldable pub nest_config : Entries → Entries
nest_config config = nest_loop empty config

pub data FieldType : Type 0 where
  number_field text_field boolean_field select_field group_field : FieldType

-- Of a field, what the code below reads.
pub record FieldDef : Type 0 where
  pub key : Text
  pub kind : FieldType
  pub default : Value
  pub required : Bool

pub record SessionRole : Type 0 where
  pub name : Text
  pub label : Text
  pub futures : Bool

pub record StrategySchema : Type 0 where
  pub id : Text
  pub label : Text
  pub description : Text
  pub category : Text
  pub supported_exchanges : List Text
  pub fields : List FieldDef
  pub cross_exchange : Bool
  pub session_roles : Option (List SessionRole)
  pub live_only : Bool
  pub requires_futures : Bool

-- A row of the registry. The columns of JSON are none where they are no array.
pub record RegistryRow : Type 0 where
  pub id : Text
  pub display_name : Text
  pub description : Option Text
  pub category : Text
  pub exchanges : Option (List Text)
  pub live_only : Option Bool
  pub cross_exchange : Option Bool
  pub fields : Option (List FieldDef)
  pub session_roles : Option (List SessionRole)
  pub requires_futures : Option Bool

-- `o ?? d`
abbrev pub or_default {ℓ} : {A : Type ℓ} → A → Option A → A
or_default d none = d
or_default d (some a) = a

unfoldable pub registry_row_to_schema : RegistryRow → StrategySchema
registry_row_to_schema row = record {
  id = row.id;
  label = row.display_name;
  description = or_default [] row.description;
  category = row.category;
  supported_exchanges = or_default [] row.exchanges;
  fields = or_default [] row.fields;
  cross_exchange = or_default false row.cross_exchange;
  session_roles = row.session_roles;
  live_only = or_default false row.live_only;
  requires_futures = or_default false row.requires_futures;
}

-- `getStrategySchema`, for `registry ?? []`.
unfoldable pub get_strategy_schema : Text → List StrategySchema → Option StrategySchema
get_strategy_schema id [] = none
get_strategy_schema id (s ∷ registry) =
    if same_text s.id id then some s else get_strategy_schema id registry

unfoldable pub defaults_loop : Entries → List FieldDef → Entries
defaults_loop defaults [] = defaults
defaults_loop defaults (field ∷ fields) =
    defaults_loop (set_nested_value defaults field.key field.default) fields

unfoldable pub get_strategy_defaults : Text → List StrategySchema → Entries
get_strategy_defaults id registry = elim (get_strategy_schema id registry) [
  | none ↦ empty
  | some schema ↦ defaults_loop empty schema.fields
]

-- `Boolean(v)`
abbrev pub truthy : Value → Bool
truthy undefined = false
truthy null = false
truthy (boolean b) = b
truthy (number n) = not (is_zero n)
truthy (text []) = false
truthy (text (c ∷ s)) = true
truthy (object es) = true

-- `Number(v)` where it is finite, for what it is of a text; `undefined` and an object give NaN.
unfoldable pub number_of : (Text → Option ℤ) → Value → Option ℤ
number_of parse undefined = none
number_of parse null = some (pos 0)
number_of parse (boolean b) = some (if b then pos (10 ^ 12) else pos 0)
number_of parse (number n) = some n
number_of parse (text s) = parse s
number_of parse (object es) = none

-- `if (Number.isFinite(num)) result[field.key] = num`
unfoldable pub put_finite : Text → Entries → Option ℤ → Entries
put_finite key result none = result
put_finite key result (some n) = put key (number n) result

-- `ensureTypes` of a number field.
unfoldable pub ensure_number : (Text → Option ℤ) → Text → Entries → Entries
ensure_number parse key result =
    let v = value_at key result in
    if is_skipped v then remove key result else put_finite key result (number_of parse v)

-- `ensureTypes` of a boolean field that holds a value.
unfoldable pub put_boolean : Text → Entries → Value → Entries
put_boolean key result (text s) = put key (boolean (same_text s (codes "true"))) result
put_boolean key result (boolean b) = result
put_boolean key result undefined = put key (boolean (truthy undefined)) result
put_boolean key result null = put key (boolean (truthy null)) result
put_boolean key result (number n) = put key (boolean (truthy (number n))) result
put_boolean key result (object es) = put key (boolean (truthy (object es))) result

unfoldable pub ensure_boolean : Text → Entries → Entries
ensure_boolean key result = put_boolean key result (value_at key result)

-- A round of the loop of `ensureTypes`.
unfoldable pub ensure_field : (Text → Option ℤ) → FieldType → Text → Entries → Entries
ensure_field parse number_field key result = ensure_number parse key result
ensure_field parse boolean_field key result = ensure_boolean key result
ensure_field parse _ key result = result

unfoldable pub ensure_loop : (Text → Option ℤ) → List FieldDef → Entries → Entries
ensure_loop parse [] result = result
ensure_loop parse (field ∷ fields) result =
    ensure_loop parse fields (ensure_field parse field.kind field.key result)

unfoldable pub ensure_types : (Text → Option ℤ) → Option StrategySchema → Entries → Entries
ensure_types parse none config = config
ensure_types parse (some schema) config = ensure_loop parse schema.fields config

pub record Listed : Type 0 where
  pub id : Text
  pub label : Text
  pub description : Text

abbrev pub listed : StrategySchema → Listed
listed s = record { id = s.id; label = s.label; description = s.description }

-- `grouped[cat]!.push(...)`, where there may be no list yet.
abbrev pub push_listed : Listed → Option (List Listed) → List Listed
push_listed l none = l ∷ []
push_listed l (some ls) = ls ++ (l ∷ [])

-- The loop of `getStrategiesByCategory`.
unfoldable pub group_loop :
    (exclude_live_only exclude_cross_exchange : Bool)
    → List (Text × List Listed)
    → List StrategySchema
    → List (Text × List Listed)
group_loop live cross grouped [] = grouped
group_loop live cross grouped (s ∷ registry) =
    let skipped = group_loop live cross grouped registry in
    let pushed =
      group_loop live cross
        (set_entry same_text s.category
          (push_listed (listed s) (find_entry same_text s.category grouped)) grouped)
        registry in
    if live && s.live_only
    then skipped
    else if cross && same_text s.category (codes "cross-exchange")
    then skipped
    else pushed

unfoldable pub get_strategies_by_category :
    (exclude_live_only exclude_cross_exchange : Bool)
    → List StrategySchema
    → List (Text × List Listed)
get_strategies_by_category live cross registry = group_loop live cross [] registry
