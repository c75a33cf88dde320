-- ===== src/Strategies/Create/Submission.antt =====
-- What a submission of the dialog's form sends.
use bbgo_sass.Prelude.{
  ◌≡◌, ◌↔◌, ◌⊎◌, refl, true, false, List, [], ◌∷◌, map, Option, none, some, arith, All, Bool-cases,
  inl, inr,
}
use bbgo_sass.Prelude.Int.{ℤ}
use bbgo_sass.Prelude.Text.{codes}
use bbgo_sass.Numbers.{is_positive}
use bbgo_sass.Manager.{paper}
use bbgo_sass.Strategies.{
  Text, Entries, value_at, FieldDef, SessionRole, StrategySchema, get_strategy_schema,
}
use bbgo_sass.Strategies.Create.{
  Form, is_unset, has_default, missing_fields, missing_of, cleaned_risk, SessionRoleConfig,
  session_of, NewStrategy, created, nonempty_risk, cross_roles, new_strategy, new_strategy_for,
  submitted_unless, handle_submit, RiskConfig,
}

-- A field that need not be given, is given, or has a default.
abbrev pub IsFilled : Entries → FieldDef → Type 0
IsFilled config field =
    (field.required ≡ false)
    ⊎ (is_unset (value_at field.key config) ≡ false)
    ⊎ (has_default field.default ≡ true)

missing_fields-IsFilled :
    (config : Entries) (fields : List FieldDef)
    → missing_fields config fields ≡ []
    → All (IsFilled config) fields
unfolding missing_fields
missing_fields-IsFilled config [] h = tt
missing_fields-IsFilled config (f ∷ fields) h =
    let head : IsFilled config f = ground (arith, h) in
    let rest : missing_fields config fields ≡ [] = ground (arith, h) in
    (head, missing_fields-IsFilled config fields rest)

IsFilled-missing_fields :
    (config : Entries) (fields : List FieldDef)
    → All (IsFilled config) fields
    → missing_fields config fields ≡ []
unfolding missing_fields
IsFilled-missing_fields config [] h = refl
IsFilled-missing_fields config (f ∷ fields) h =
    let rest = IsFilled-missing_fields config fields h.1 in
    elim h.0 [
      | inl e ↦ rw e rest
      | inr (inl e) ↦ ground (arith, rest, e)
      | inr (inr e) ↦ ground (arith, rest, e)
    ]

cleaned_risk-positive : (risk : RiskConfig) → All (λ r. is_positive r.1 ≡ true) (cleaned_risk risk)
unfolding cleaned_risk
cleaned_risk-positive [] = tt
cleaned_risk-positive ((k, none) ∷ risk) = cleaned_risk-positive risk
cleaned_risk-positive ((k, some v) ∷ risk) = elim (Bool-cases (is_positive v)) [
  | inl e ↦ rw e (e, cleaned_risk-positive risk)
  | inr e ↦ rw e (cleaned_risk-positive risk)
]

abbrev pub values_of {ℓ} : {A : Type ℓ} → Option (List A) → List A
values_of none = []
values_of (some xs) = xs

abbrev pub fields_of : Option StrategySchema → List FieldDef
fields_of none = []
fields_of (some schema) = schema.fields

missing_of-IsFilled :
    (schema : Option StrategySchema) (config : Entries)
    → (missing_of schema config ≡ []) ↔ All (IsFilled config) (fields_of schema)
missing_of-IsFilled none config = (λ h. tt, λ h. refl)
missing_of-IsFilled (some s) config =
    (missing_fields-IsFilled config s.fields, IsFilled-missing_fields config s.fields)

nonempty_risk-values_of : (risk : List (Text × ℤ)) → values_of (nonempty_risk risk) ≡ risk
nonempty_risk-values_of [] = refl
nonempty_risk-values_of (r ∷ risk) = refl

paper_sessions :
    (exchanges : List (Text × Text)) (roles : List SessionRole)
    → All {A = SessionRoleConfig}
        (λ s. s.exchange ≡ codes "binance")
        (map (session_of paper exchanges) roles)
unfolding session_of
paper_sessions exchanges [] = tt
paper_sessions exchanges (r ∷ roles) = (refl, paper_sessions exchanges roles)

-- What the manager gets of the risk and the sessions.
abbrev pub IsSafe : Form → NewStrategy → Type 0
IsSafe form new =
    All {A = Text × ℤ} (λ r. is_positive r.1 ≡ true) (values_of new.risk_config)
    × (form.mode ≡ paper
        → All {A = SessionRoleConfig} (λ s. s.exchange ≡ codes "binance") (values_of new.sessions))

new_strategy_for-IsSafe :
    (parse : Text → Option ℤ) (user_id : Text) (schema : Option StrategySchema) (form : Form)
    → (roles : Option (List SessionRole))
    → IsSafe form (new_strategy_for parse user_id schema form roles)
unfolding new_strategy_for
new_strategy_for-IsSafe parse user_id schema form none = (
  rw (nonempty_risk-values_of (cleaned_risk form.risk_config))
      (cleaned_risk-positive form.risk_config),
  λ e. tt,
)
new_strategy_for-IsSafe parse user_id schema form (some roles) = (
  rw (nonempty_risk-values_of (cleaned_risk form.risk_config))
      (cleaned_risk-positive form.risk_config),
  λ e. rw e (paper_sessions form.session_exchanges roles),
)

submitted_unless-created :
    (keys : List Text) (new : NewStrategy) → (submitted_unless keys new ≡ created new) ↔ (keys ≡ [])
unfolding submitted_unless
submitted_unless-created [] new = (λ h. refl, λ h. refl)
submitted_unless-created (k ∷ keys) new = (λ h. absurd cc, λ h. absurd cc)

-- A submission sends its request exactly if each required field of the strategy is given or has a default.
-- In the request every risk value is positive, and in paper mode every session is one of Binance.
pub handle_submit-IsSafe :
    (parse : Text → Option ℤ) (user_id : Text) (registry : List StrategySchema) (form : Form)
    → let schema = get_strategy_schema form.strategy registry in
      let new = new_strategy parse user_id schema form in
      ((handle_submit parse user_id registry form ≡ created new)
        ↔ All (IsFilled form.config) (fields_of schema))
      × IsSafe form new
unfolding handle_submit
handle_submit-IsSafe parse user_id registry form =
    let schema = get_strategy_schema form.strategy registry in
    let new = new_strategy parse user_id schema form in
    let sent = submitted_unless-created (missing_of schema form.config) new in
    let filled = missing_of-IsFilled schema form.config in
    (
      (λ h. filled.0 (sent.0 h), λ h. sent.1 (filled.1 h)),
      new_strategy_for-IsSafe parse user_id schema form (cross_roles schema),
    )
