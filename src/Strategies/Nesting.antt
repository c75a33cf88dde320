-- ===== src/Strategies/Nesting.antt =====
-- Reading back what `setNestedValue` and `nestConfig` of web/src/lib/bbgo/strategies.ts write.
use bbgo_sass.Prelude.{
  ℕ, ◌==◌, ◌++◌, ◌≡◌, refl, Bool, true, false, not, ◌||◌, List, [], ◌∷◌, arith, ap, ◌∙◌, sym, subst,
  Bool-cases, inl, inr, if◌then◌else◌,
}
use bbgo_sass.Prelude.Text.{same_text, same_text_refl, eq_of_same_text, split, split_from}
use bbgo_sass.Strategies.{
  Text, Value, undefined, object, Entries, empty, entry, value_at, put, child, set_nested,
  set_nested_value, path_of, is_skipped, nest_loop, nest_config,
}

pub value_at-put_self : (k : Text) (v : Value) (es : Entries) → value_at k (put k v es) ≡ v
unfolding value_at put
value_at-put_self k v empty = rw (same_text_refl k)
value_at-put_self k v (entry j w es) = elim (Bool-cases (same_text j k)) [
  | inl e ↦ rw (e, e)
  | inr e ↦ rw (e, e) (value_at-put_self k v es)
]

pub value_at-put_ne :
    (k i : Text) (v : Value) (es : Entries)
    → same_text k i ≡ false
    → value_at i (put k v es) ≡ value_at i es
unfolding value_at put
value_at-put_ne k i v empty h = rw h
value_at-put_ne k i v (entry j w es) h = elim (Bool-cases (same_text j k)) [
  | inl e ↦
      let other : same_text j i ≡ false = ap (λ x. same_text x i) (eq_of_same_text j k e) ∙ h in
      rw (e, other)
  | inr e ↦ elim (Bool-cases (same_text j i)) [
    | inl f ↦ rw (e, f)
    | inr f ↦ rw (e, f) (value_at-put_ne k i v es h)
  ]
]

-- What stands at a path.
unfoldable pub get_nested : List Text → Entries → Value
get_nested [] obj = undefined
get_nested (key ∷ keys) obj = elim keys as (λ ks. Value) [
  | [] ↦ value_at key obj
  | k ∷ ks ↦ get_nested keys (child (value_at key obj))
]

pub get_nested-set_nested_self :
    (k : Text) (ks : List Text) (v : Value) (obj : Entries)
    → get_nested (k ∷ ks) (set_nested (k ∷ ks) v obj) ≡ v
unfolding get_nested set_nested
get_nested-set_nested_self k [] v obj = value_at-put_self k v obj
get_nested-set_nested_self k (j ∷ ks) v obj =
    let inner = set_nested (j ∷ ks) v (child (value_at k obj)) in
    ap (λ x. get_nested (j ∷ ks) (child x)) (value_at-put_self k (object inner) obj)
    ∙ get_nested-set_nested_self j ks v (child (value_at k obj))

-- Neither of two paths is at or above the other.
unfoldable pub are_apart : List Text → List Text → Bool
are_apart [] q = false
are_apart (k ∷ p) [] = false
are_apart (k ∷ p) (l ∷ q) = not (same_text l k) || are_apart p q

get_nested-put_ne :
    (k l : Text) (p : List Text) (v : Value) (obj : Entries)
    → same_text l k ≡ false
    → get_nested (k ∷ p) (put l v obj) ≡ get_nested (k ∷ p) obj
unfolding get_nested
get_nested-put_ne k l [] v obj h = value_at-put_ne l k v obj h
get_nested-put_ne k l (j ∷ p) v obj h =
    ap (λ x. get_nested (j ∷ p) (child x)) (value_at-put_ne l k v obj h)

apart_nil : (p : List Text) → are_apart p [] ≡ false
unfolding are_apart
apart_nil [] = refl
apart_nil (k ∷ p) = refl

get_nested-set_nested_ne :
    (p q : List Text) (v : Value) (obj : Entries)
    → are_apart p q ≡ true
    → get_nested p (set_nested q v obj) ≡ get_nested p obj
unfolding get_nested set_nested are_apart
get_nested-set_nested_ne [] q v obj h = absurd (ground arith)
get_nested-set_nested_ne (k ∷ p) [] v obj h = absurd (ground arith)
get_nested-set_nested_ne (k ∷ p) (l ∷ []) v obj h =
    get_nested-put_ne k l p v obj (ground (arith, apart_nil p, h))
get_nested-set_nested_ne (k ∷ []) (l ∷ m ∷ q) v obj h =
    get_nested-put_ne k l [] (object (set_nested (m ∷ q) v (child (value_at l obj)))) obj
      (ground (arith, h))
get_nested-set_nested_ne (k ∷ j ∷ p) (l ∷ m ∷ q) v obj h =
    let inner = set_nested (m ∷ q) v (child (value_at l obj)) in
    elim (Bool-cases (same_text l k)) [
      | inr e ↦ get_nested-put_ne k l (j ∷ p) (object inner) obj e
      | inl e ↦
          let eq = eq_of_same_text l k e in
          let more : are_apart (j ∷ p) (m ∷ q) ≡ true = ground (arith, h, e) in
          ap (λ x. get_nested (j ∷ p) (child x))
            (ap (λ y. value_at y (put l (object inner) obj)) (sym eq)
              ∙ value_at-put_self l (object inner) obj)
          ∙ get_nested-set_nested_ne (j ∷ p) (m ∷ q) v (child (value_at l obj)) more
          ∙ ap (λ y. get_nested (j ∷ p) (child (value_at y obj))) eq
    ]

get_nested_empty : (p : List Text) → get_nested p empty ≡ undefined
unfolding get_nested value_at
get_nested_empty [] = refl
get_nested_empty (k ∷ []) = refl
get_nested_empty (k ∷ j ∷ p) = get_nested_empty (j ∷ p)

-- A path is apart from those of all keys of a configuration.
abbrev pub IsApartFrom : List Text → Entries → Type 0
IsApartFrom p empty = Unit
IsApartFrom p (entry k v es) = (are_apart p (path_of k) ≡ true) × IsApartFrom p es

-- The paths of the keys are apart from each other, and none is empty.
abbrev pub HasApartKeys : Entries → Type 0
HasApartKeys empty = Unit
HasApartKeys (entry k v es) = IsApartFrom (path_of k) es × HasApartKeys es

-- Each value of a configuration stands in the result at the path of its key, except those that are left
-- out, where there is what was there before.
abbrev pub Reads : (before result : Entries) → Entries → Type 0
Reads before result empty = Unit
Reads before result (entry k v es) =
    (get_nested (path_of k) result ≡ (if is_skipped v then get_nested (path_of k) before else v))
    × Reads before result es

nest_loop-IsApartFrom :
    (p : List Text) (result config : Entries)
    → IsApartFrom p config
    → get_nested p (nest_loop result config) ≡ get_nested p result
unfolding nest_loop set_nested_value
nest_loop-IsApartFrom p result empty h = refl
nest_loop-IsApartFrom p result (entry k v es) h = elim (Bool-cases (is_skipped v)) [
  | inl e ↦ rw e (nest_loop-IsApartFrom p result es h.1)
  | inr e ↦ rw e (
      nest_loop-IsApartFrom p (set_nested (path_of k) v result) es h.1
      ∙ get_nested-set_nested_ne p (path_of k) v result h.0)
]

pub same_text_sym : (s t : Text) → same_text s t ≡ same_text t s
unfolding same_text
same_text_sym [] [] = refl
same_text_sym [] (d ∷ t) = refl
same_text_sym (c ∷ s) [] = refl
same_text_sym (c ∷ s) (d ∷ t) = ground (arith, same_text_sym s t)

apart_sym : (p q : List Text) → are_apart p q ≡ true → are_apart q p ≡ true
unfolding are_apart
apart_sym [] q h = absurd (ground arith)
apart_sym (k ∷ p) [] h = absurd (ground arith)
apart_sym (k ∷ p) (l ∷ q) h = ground (arith, h, same_text_sym k l, apart_sym p q)

-- Splitting gives one part at least.
split_from_parts :
    (c : ℕ) (current s : Text)
    → (first : Text) × (more : List Text) × (split_from c current s ≡ first ∷ more)
unfolding split_from
split_from_parts c current [] = (current, [], refl)
split_from_parts c current (x ∷ s) = elim (Bool-cases (x == c)) [
  | inl e ↦ rw e (current, split_from c [] s, refl)
  | inr e ↦ rw e (split_from_parts c (current ++ (x ∷ [])) s)
]

get_nested-path_of :
    (key : Text) (v : Value) (obj : Entries)
    → get_nested (path_of key) (set_nested (path_of key) v obj) ≡ v
unfolding split
get_nested-path_of key v obj =
    let (first, more, e) = split_from_parts b'.' [] key in
    rw e (get_nested-set_nested_self first more v obj)

-- A value written at a path apart from those of the keys is not one that they read.
Reads-before :
    (p : List Text) (v : Value) (before result config : Entries)
    → IsApartFrom p config
    → Reads (set_nested p v before) result config
    → Reads before result config
Reads-before p v before result empty h r = tt
Reads-before p v before result (entry k w es) h r =
    let same = get_nested-set_nested_ne (path_of k) p v before (apart_sym p (path_of k) h.0) in
    (r.0 ∙ ap (λ x. if is_skipped w then x else w) same, Reads-before p v before result es h.1 r.1)

nest_loop-Reads :
    (before config : Entries) → HasApartKeys config → Reads before (nest_loop before config) config
unfolding nest_loop set_nested_value
nest_loop-Reads before empty h = tt
nest_loop-Reads before (entry k v es) h =
    let after = set_nested (path_of k) v before in
    let Goal : Entries → Type 0 = λ r. Reads before r (entry k v es) in
    elim (Bool-cases (is_skipped v)) [
      | inl e ↦
          let eq : nest_loop before es ≡ nest_loop before (entry k v es) = rw e in
          subst Goal eq
            (rw e (nest_loop-IsApartFrom (path_of k) before es h.0), nest_loop-Reads before es h.1)
      | inr e ↦
          let eq : nest_loop after es ≡ nest_loop before (entry k v es) = rw e in
          subst Goal eq (
            rw e (nest_loop-IsApartFrom (path_of k) after es h.0 ∙ get_nested-path_of k v before),
            Reads-before (path_of k) v before (nest_loop after es) es h.0
                (nest_loop-Reads after es h.1),
          )
    ]

-- Of a configuration with keys of which none is at or above another, as paths, `nestConfig` puts each value
-- at the path of its key, and nothing for a value that is undefined, null or the empty text.
pub nest_config-Reads :
    (config : Entries) → HasApartKeys config → Reads empty (nest_config config) config
unfolding nest_config
nest_config-Reads config h = nest_loop-Reads empty config h
