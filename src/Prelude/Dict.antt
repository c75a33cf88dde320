-- ===== src/Prelude/Dict.antt =====
-- `Map` by insertion order, over a test of keys.
use bbgo_sass.Prelude.{
  true, All-map₂, ap, ◌∙◌, ◌≡◌, Bool, false, List, [], ◌∷◌, Option, none, some, if◌then◌else◌,
  Bool-cases, inl, inr, All, map,
}
use bbgo_sass.Prelude.Int.{ℤ, pos, ◌+ℤ◌, int_laws, parts_of}

module _ {ℓ κ} {K : Type ℓ} {V : Type κ} (same : K → K → Bool) where
  -- `m.get(k)`
  unfoldable pub find_entry : K → List (K × V) → Option V
  find_entry k [] = none
  find_entry k ((j, v) ∷ m) = if same j k then some v else find_entry k m

  -- `m.set(k, v)`
  unfoldable pub set_entry : K → V → List (K × V) → List (K × V)
  set_entry k v [] = (k, v) ∷ []
  set_entry k v ((j, w) ∷ m) = if same j k then (j, v) ∷ m else (j, w) ∷ set_entry k v m

  -- The sum of a value over the entries.
  unfoldable pub sum_entries : (V → ℤ) → List (K × V) → ℤ
  sum_entries f [] = pos 0
  sum_entries f ((j, v) ∷ m) = f v +ℤ sum_entries f m

  -- The value of an entry that may be absent.
  abbrev pub value_or {μ} : {A : Type μ} → (V → A) → A → Option V → A
  value_or f d none = d
  value_or f d (some v) = f v

  -- A write moves the sum by the difference of the values.
  pub sum_entries-set_entry :
      (f : V → ℤ) (k : K) (v : V) (m : List (K × V))
      → sum_entries f (set_entry k v m) +ℤ value_or f (pos 0) (find_entry k m)
        ≡ sum_entries f m +ℤ f v
  unfolding sum_entries set_entry find_entry
  sum_entries-set_entry f k v [] = omega int_laws
  sum_entries-set_entry f k v ((j, w) ∷ m) = elim (Bool-cases (same j k)) [
    | inl e ↦ rw e (omega int_laws)
    | inr e ↦ rw e (omega (int_laws, parts_of (sum_entries-set_entry f k v m)))
  ]

  -- What an update of one entry, absent at first, adds to the sum.
  pub sum_entries-update :
      (f : V → ℤ) (g : V → V) (d : V) (v : ℤ)
      → f d ≡ pos 0
      → ((w : V) → f (g w) ≡ f w +ℤ v)
      → (k : K) (m : List (K × V))
      → sum_entries f (set_entry k (g (value_or (λ w. w) d (find_entry k m))) m)
        ≡ sum_entries f m +ℤ v
  sum_entries-update f g d v empty adds k m =
      let found = find_entry k m in
      go found (sum_entries-set_entry f k (g (value_or (λ w. w) d found)) m)
    where
      go :
          (o : Option V)
          → sum_entries f (set_entry k (g (value_or (λ w. w) d o)) m) +ℤ value_or f (pos 0) o
            ≡ sum_entries f m +ℤ f (g (value_or (λ w. w) d o))
          → sum_entries f (set_entry k (g (value_or (λ w. w) d o)) m) ≡ sum_entries f m +ℤ v
      go none e = omega (int_laws, parts_of e, parts_of (adds d), parts_of empty)
      go (some w) e = omega (int_laws, parts_of e, parts_of (adds w))

  abbrev pub keys : List (K × V) → List K
  keys = map (λ e. e.0)

  -- No two entries have one key.
  abbrev pub HasDistinctKeys : List (K × V) → Type 0
  HasDistinctKeys [] = Unit
  HasDistinctKeys ((j, v) ∷ m) = (All (λ e. same j e.0 ≡ false) m) × HasDistinctKeys m

  module _ (P : K → Type 0) where
    set_entry-All :
        (k : K) (v : V) (m : List (K × V))
        → P k
        → All (λ e. P e.0) m
        → All (λ e. P e.0) (set_entry k v m)
    unfolding set_entry
    set_entry-All k v [] p h = (p, tt)
    set_entry-All k v ((j, w) ∷ m) p h = elim (Bool-cases (same j k)) [
      | inl e ↦ rw e h
      | inr e ↦ rw e (h.0, set_entry-All k v m p h.1)
    ]

  pub set_entry-HasDistinctKeys :
      (k : K) (v : V) (m : List (K × V)) → HasDistinctKeys m → HasDistinctKeys (set_entry k v m)
  unfolding set_entry
  set_entry-HasDistinctKeys k v [] d = (tt, tt)
  set_entry-HasDistinctKeys k v ((j, w) ∷ m) d = elim (Bool-cases (same j k)) [
    | inl e ↦ rw e d
    | inr e ↦
        rw e
          (set_entry-All (λ i. same j i ≡ false) k v m e d.0, set_entry-HasDistinctKeys k v m d.1)
  ]

  module _ (same_refl : (k : K) → same k k ≡ true)
      (eq_of_same : (j k : K) → same j k ≡ true → j ≡ k) where
    pub find_entry-set_entry_self :
        (k : K) (v : V) (m : List (K × V)) → find_entry k (set_entry k v m) ≡ some v
    unfolding find_entry set_entry
    find_entry-set_entry_self k v [] = rw (same_refl k)
    find_entry-set_entry_self k v ((j, w) ∷ m) = elim (Bool-cases (same j k)) [
      | inl e ↦ rw (e, e)
      | inr e ↦ rw (e, e) (find_entry-set_entry_self k v m)
    ]

    pub find_entry-set_entry_ne :
        (k i : K) (v : V) (m : List (K × V))
        → same k i ≡ false
        → find_entry i (set_entry k v m) ≡ find_entry i m
    unfolding find_entry set_entry
    find_entry-set_entry_ne k i v [] h = rw h
    find_entry-set_entry_ne k i v ((j, w) ∷ m) h = elim (Bool-cases (same j k)) [
      | inl e ↦
          let other : same j i ≡ false = ap (λ x. same x i) (eq_of_same j k e) ∙ h in rw (e, other)
      | inr e ↦ elim (Bool-cases (same j i)) [
        | inl f ↦ rw (e, f)
        | inr f ↦ rw (e, f) (find_entry-set_entry_ne k i v m h)
      ]
    ]

    -- In a map without double keys each entry is found.
    pub HasDistinctKeys-find_entry :
        (m : List (K × V)) → HasDistinctKeys m → All (λ e. find_entry e.0 m ≡ some e.1) m
    unfolding find_entry
    HasDistinctKeys-find_entry [] d = tt
    HasDistinctKeys-find_entry ((j, v) ∷ m) d = (
      rw (same_refl j),
      All-map₂ (λ e other found. rw (other) found) m d.0 (HasDistinctKeys-find_entry m d.1),
    )
