-- ===== src/Prelude/Text.antt =====
-- The order of texts that `<` and `>` test, by code units.
use Prim.Native.Char.{code}
use bbgo_sass.Prelude.{
  ℕ, ◌≡◌, Bool, true, false, List, [], ◌∷◌, String, arith, ltb, ◌==◌, ◌&&◌, ◌++◌, refl,
  if◌then◌else◌, ◌||◌, sym, append-nil, append_assoc, get_or, Bool-cases, inl, inr, ◌∙◌,
}

-- The code points of a text: its code units, outside the supplementary planes.
abbrev pub codes : String → List ℕ
codes String.[] = []
codes (String.◌∷◌ c s) = code c ∷ codes s

unfoldable pub lex_lt : List ℕ → List ℕ → Bool
lex_lt [] [] = false
lex_lt [] (y ∷ ys) = true
lex_lt (x ∷ xs) [] = false
lex_lt (x ∷ xs) (y ∷ ys) = if ltb x y then true else if ltb y x then false else lex_lt xs ys

-- `s < t`
abbrev pub text_lt : String → String → Bool
text_lt s t = lex_lt (codes s) (codes t)

pub lex_lt_asym : (xs ys : List ℕ) → lex_lt xs ys ≡ true → lex_lt ys xs ≡ false
unfolding lex_lt
lex_lt_asym [] [] h = ground arith
lex_lt_asym [] (y ∷ ys) h = ground arith
lex_lt_asym (x ∷ xs) [] h = ground arith
lex_lt_asym (x ∷ xs) (y ∷ ys) h = ground (arith, lex_lt_asym xs ys)

-- `not (y < x)` and `not (z < y)` give `not (z < x)`.
pub lex_lt_trans :
    (xs ys zs : List ℕ) → lex_lt ys xs ≡ false → lex_lt zs ys ≡ false → lex_lt zs xs ≡ false
unfolding lex_lt
lex_lt_trans [] ys [] h k = ground arith
lex_lt_trans [] ys (z ∷ zs) h k = ground arith
lex_lt_trans (x ∷ xs) [] zs h k = ground arith
lex_lt_trans (x ∷ xs) (y ∷ ys) [] h k = ground arith
lex_lt_trans (x ∷ xs) (y ∷ ys) (z ∷ zs) h k = ground (arith, lex_lt_trans xs ys zs)

-- `s.startsWith(p)`
unfoldable pub starts_with : List ℕ → List ℕ → Bool
starts_with s [] = true
starts_with [] (c ∷ p) = false
starts_with (d ∷ s) (c ∷ p) = (d == c) && starts_with s p

-- `s === t`
unfoldable pub same_text : List ℕ → List ℕ → Bool
same_text [] [] = true
same_text [] (c ∷ t) = false
same_text (d ∷ s) [] = false
same_text (d ∷ s) (c ∷ t) = (d == c) && same_text s t

pub starts_with-append : (p s : List ℕ) → starts_with (p ++ s) p ≡ true
unfolding starts_with
starts_with-append [] s = refl
starts_with-append (c ∷ p) s = ground (arith, starts_with-append p s)

pub same_text_refl : (s : List ℕ) → same_text s s ≡ true
unfolding same_text
same_text_refl [] = refl
same_text_refl (c ∷ s) = ground (arith, same_text_refl s)

pub eq_of_same_text : (s t : List ℕ) → same_text s t ≡ true → s ≡ t
unfolding same_text
eq_of_same_text [] [] h = refl
eq_of_same_text [] (c ∷ t) h = ground arith
eq_of_same_text (d ∷ s) [] h = ground arith
eq_of_same_text (d ∷ s) (c ∷ t) h = ground (arith, eq_of_same_text s t)

-- `s.split(c)`, for one character.
unfoldable pub split_from : ℕ → List ℕ → List ℕ → List (List ℕ)
split_from c current [] = current ∷ []
split_from c current (ch ∷ line) =
    let next_part = current ∷ split_from c [] line in
    let same_part = split_from c (current ++ (ch ∷ [])) line in
    if ch == c then next_part else same_part

unfoldable pub split : ℕ → List ℕ → List (List ℕ)
split c line = split_from c [] line

-- `s.includes(c)`, for one character.
unfoldable pub includes : List ℕ → ℕ → Bool
includes [] c = false
includes (x ∷ xs) c = x == c || includes xs c

-- A text that starts with another one is that one and a rest.
pub rest_of_starts_with :
    (s p : List ℕ) → starts_with s p ≡ true → (rest : List ℕ) × (s ≡ p ++ rest)
unfolding starts_with
rest_of_starts_with s [] h = (s, refl)
rest_of_starts_with [] (c ∷ p) h = absurd (ground arith)
rest_of_starts_with (d ∷ s) (c ∷ p) h =
    let (rest, e) = rest_of_starts_with s p (ground (arith, h)) in
    let same : d ≡ c = ground (arith, h) in (rest, cc)

-- The first part of a text that is split starts with what is read already.
pub split_from-current :
    (c : ℕ) (current s : List ℕ)
    → (more : List ℕ) × (get_or (split_from c current s) 0 [] ≡ current ++ more)
unfolding split_from
split_from-current c current [] = ([], sym (append-nil current))
split_from-current c current (x ∷ s) = elim (Bool-cases (x == c)) [
  | inl e ↦ rw e ([], sym (append-nil current))
  | inr e ↦
      let (more, q) = split_from-current c (current ++ (x ∷ [])) s in
      rw e (x ∷ more, q ∙ append_assoc current (x ∷ []) more)
]
