-- ===== src/Strategies/Typing.antt =====
-- The types of what `ensureTypes` of web/src/lib/bbgo/strategies.ts leaves.
use bbgo_sass.Prelude.{
  ◌≡◌, ◌⊎◌, refl, Bool, true, false, List, [], ◌∷◌, ap, ◌∙◌, sym, subst, Bool-cases, inl, inr, All,
  Option, none, some,
}
use bbgo_sass.Prelude.Int.{ℤ}
use bbgo_sass.Prelude.Text.{codes, same_text, eq_of_same_text}
use bbgo_sass.Strategies.{
  Text, Value, undefined, null, boolean, number, text, object, Entries, empty, entry, value_at,
  remove, is_skipped, truthy, number_of, FieldType, number_field, text_field, boolean_field,
  select_field, group_field, FieldDef, put_finite, put_boolean, ensure_number, ensure_boolean,
  ensure_field, ensure_loop, ensure_types, StrategySchema,
}
use bbgo_sass.Strategies.Nesting.{value_at-put_self, value_at-put_ne, same_text_sym}

value_at-remove_self : (k : Text) (es : Entries) → value_at k (remove k es) ≡ undefined
unfolding value_at remove
value_at-remove_self k empty = refl
value_at-remove_self k (entry j w es) = elim (Bool-cases (same_text j k)) [
  | inl e ↦ rw e (value_at-remove_self k es)
  | inr e ↦ rw (e, e) (value_at-remove_self k es)
]

value_at-remove_ne :
    (k i : Text) (es : Entries) → same_text k i ≡ false → value_at i (remove k es) ≡ value_at i es
unfolding value_at remove
value_at-remove_ne k i empty h = refl
value_at-remove_ne k i (entry j w es) h = elim (Bool-cases (same_text j k)) [
  | inl e ↦
      let other : same_text j i ≡ false = ap (λ x. same_text x i) (eq_of_same_text j k e) ∙ h in
      rw (e, other) (value_at-remove_ne k i es h)
  | inr e ↦ elim (Bool-cases (same_text j i)) [
    | inl f ↦ rw (e, f)
    | inr f ↦ rw (e, f) (value_at-remove_ne k i es h)
  ]
]

module _ (parse : Text → Option ℤ) where
  -- What a field of a type may hold after, if it held `old` before.
  abbrev pub IsTyped : FieldType → (old new : Value) → Type 0
  IsTyped number_field old new =
      (new ≡ undefined)
      ⊎ ((n : ℤ) × (new ≡ number n))
      ⊎ ((new ≡ old) × (number_of parse old ≡ none))
  IsTyped boolean_field old new = (b : Bool) × (new ≡ boolean b)
  IsTyped _ old new = new ≡ old

  put_finite-IsTyped :
      (key : Text) (es : Entries) (v : Value)
      → value_at key es ≡ v
      → (o : Option ℤ) → number_of parse v ≡ o
      → IsTyped number_field v (value_at key (put_finite key es o))
  unfolding put_finite
  put_finite-IsTyped key es v h none e = inr (inr (h, e))
  put_finite-IsTyped key es v h (some n) e = inr (inl (n, value_at-put_self key (number n) es))

  ensure_number-IsTyped :
      (key : Text) (es : Entries)
      → IsTyped number_field (value_at key es) (value_at key (ensure_number parse key es))
  unfolding ensure_number
  ensure_number-IsTyped key es =
      let v = value_at key es in
      elim (Bool-cases (is_skipped v)) [
        | inl e ↦
            let eq : remove key es ≡ ensure_number parse key es = rw e in
            inl (ap (value_at key) (sym eq) ∙ value_at-remove_self key es)
        | inr e ↦
            let eq : put_finite key es (number_of parse v) ≡ ensure_number parse key es = rw e in
            subst (λ r. IsTyped number_field v (value_at key r)) eq
              (put_finite-IsTyped key es v refl (number_of parse v) refl)
      ]

  put_finite_ne :
      (key i : Text) (es : Entries) (o : Option ℤ)
      → same_text key i ≡ false
      → value_at i (put_finite key es o) ≡ value_at i es
  unfolding put_finite
  put_finite_ne key i es none h = refl
  put_finite_ne key i es (some n) h = value_at-put_ne key i (number n) es h

  ensure_number_ne :
      (key i : Text) (es : Entries)
      → same_text key i ≡ false
      → value_at i (ensure_number parse key es) ≡ value_at i es
  unfolding ensure_number
  ensure_number_ne key i es h = elim (Bool-cases (is_skipped (value_at key es))) [
    | inl e ↦ rw e (value_at-remove_ne key i es h)
    | inr e ↦ rw e (put_finite_ne key i es (number_of parse (value_at key es)) h)
  ]

  put_boolean-IsTyped :
      (key : Text) (es : Entries) (v : Value)
      → value_at key es ≡ v
      → IsTyped boolean_field v (value_at key (put_boolean key es v))
  unfolding put_boolean
  put_boolean-IsTyped key es (text s) h = (same_text s (codes "true"), value_at-put_self key _ es)
  put_boolean-IsTyped key es (boolean b) h = (b, h)
  put_boolean-IsTyped key es undefined h = (false, value_at-put_self key _ es)
  put_boolean-IsTyped key es null h = (false, value_at-put_self key _ es)
  put_boolean-IsTyped key es (number n) h = (truthy (number n), value_at-put_self key _ es)
  put_boolean-IsTyped key es (object o) h = (true, value_at-put_self key _ es)

  put_boolean_ne :
      (key i : Text) (es : Entries) (v : Value)
      → same_text key i ≡ false
      → value_at i (put_boolean key es v) ≡ value_at i es
  unfolding put_boolean
  put_boolean_ne key i es (text s) h = value_at-put_ne key i _ es h
  put_boolean_ne key i es (boolean b) h = refl
  put_boolean_ne key i es undefined h = value_at-put_ne key i _ es h
  put_boolean_ne key i es null h = value_at-put_ne key i _ es h
  put_boolean_ne key i es (number n) h = value_at-put_ne key i _ es h
  put_boolean_ne key i es (object o) h = value_at-put_ne key i _ es h

  -- No later field has the key.
  abbrev pub IsFresh : Text → List FieldDef → Type 0
  IsFresh key = All (λ f. same_text f.key key ≡ false)

  abbrev pub HasDistinctFields : List FieldDef → Type 0
  HasDistinctFields [] = Unit
  HasDistinctFields (f ∷ fs) = IsFresh f.key fs × HasDistinctFields fs

  ensure_field-IsTyped :
      (kind : FieldType) (key : Text) (es : Entries)
      → IsTyped kind (value_at key es) (value_at key (ensure_field parse kind key es))
  unfolding ensure_field ensure_boolean
  ensure_field-IsTyped number_field key es = ensure_number-IsTyped key es
  ensure_field-IsTyped boolean_field key es = put_boolean-IsTyped key es (value_at key es) refl
  ensure_field-IsTyped text_field key es = refl
  ensure_field-IsTyped select_field key es = refl
  ensure_field-IsTyped group_field key es = refl

  ensure_field_ne :
      (kind : FieldType) (key i : Text) (es : Entries)
      → same_text key i ≡ false
      → value_at i (ensure_field parse kind key es) ≡ value_at i es
  unfolding ensure_field ensure_boolean
  ensure_field_ne number_field key i es h = ensure_number_ne key i es h
  ensure_field_ne boolean_field key i es h = put_boolean_ne key i es (value_at key es) h
  ensure_field_ne text_field key i es h = refl
  ensure_field_ne select_field key i es h = refl
  ensure_field_ne group_field key i es h = refl

  ensure_loop_ne :
      (key : Text) (fs : List FieldDef) (es : Entries)
      → IsFresh key fs
      → value_at key (ensure_loop parse fs es) ≡ value_at key es
  unfolding ensure_loop
  ensure_loop_ne key [] es h = refl
  ensure_loop_ne key (f ∷ fs) es h =
      ensure_loop_ne key fs (ensure_field parse f.kind f.key es) h.1
      ∙ ensure_field_ne f.kind f.key key es h.0

  -- Every field holds after the loop what a field of its type may hold.
  abbrev pub AreTyped : List FieldDef → (old new : Entries) → Type 0
  AreTyped [] old new = Unit
  AreTyped (f ∷ fs) old new =
      IsTyped f.kind (value_at f.key old) (value_at f.key new) × AreTyped fs old new

  AreTyped-before :
      (f : FieldDef) (fs : List FieldDef) (es new : Entries)
      → IsFresh f.key fs
      → AreTyped fs (ensure_field parse f.kind f.key es) new
      → AreTyped fs es new
  AreTyped-before f [] es new h t = tt
  AreTyped-before f (g ∷ fs) es new h t =
      let other : same_text f.key g.key ≡ false = same_text_sym f.key g.key ∙ h.0 in
      (
        subst (λ v. IsTyped g.kind v (value_at g.key new))
            (ensure_field_ne f.kind f.key g.key es other) t.0,
        AreTyped-before f fs es new h.1 t.1,
      )

  ensure_loop-AreTyped :
      (fs : List FieldDef) (es : Entries)
      → HasDistinctFields fs
      → AreTyped fs es (ensure_loop parse fs es)
  unfolding ensure_loop
  ensure_loop-AreTyped [] es h = tt
  ensure_loop-AreTyped (f ∷ fs) es h =
      let next = ensure_field parse f.kind f.key es in
      (
        subst (λ v. IsTyped f.kind (value_at f.key es) v) (sym (ensure_loop_ne f.key fs next h.0))
            (ensure_field-IsTyped f.kind f.key es),
        AreTyped-before f fs es (ensure_loop parse fs next) h.0 (ensure_loop-AreTyped fs next h.1),
      )

  -- For a schema whose fields have distinct keys, `ensureTypes` leaves at the key of each number field a
  -- number, nothing, or the value it found where that is no finite number, at the key of each boolean field
  -- a boolean, and at that of any other field the value it found.
  pub ensure_types-AreTyped :
      (schema : StrategySchema) (config : Entries)
      → HasDistinctFields schema.fields
      → AreTyped schema.fields config (ensure_types parse (some schema) config)
  unfolding ensure_types
  ensure_types-AreTyped schema config h = ensure_loop-AreTyped schema.fields config h
