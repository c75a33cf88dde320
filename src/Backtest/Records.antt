-- ===== src/Backtest/Records.antt =====
-- Delimited records: what `splitRecord` reads of a printed record.
use bbgo_sass.Prelude.{
  ℕ, ◌≡◌, Bool, true, false, List, [], ◌∷◌, ◌++◌, map, arith, ◌==◌, Bool-cases, inl, inr, All, ap,
  ◌∙◌, sym, append_assoc, append-nil,
}
use bbgo_sass.Prelude.Text.{includes}
use bbgo_sass.Backtest.{Text, split_quoted, split_record}

-- A part, in quotes or not, and the text that stands for it.
abbrev pub Part : Type 0
Part = Bool × Text

abbrev pub printed : Part → Text
printed (true, s) = b'"' ∷ s ++ (b'"' ∷ [])
printed (false, s) = s

-- The parts with commas between them.
abbrev pub joined : Part → List Part → Text
joined p [] = printed p
joined p (q ∷ qs) = printed p ++ b',' ∷ joined q qs

-- No part has a quotation mark, and none that is not quoted has a comma.
abbrev pub IsPrintable : Part → Type 0
IsPrintable (true, s) = includes s b'"' ≡ false
IsPrintable (false, s) = (includes s b'"' ≡ false) × (includes s b',' ≡ false)

abbrev pub text_of : Part → Text
text_of p = p.1

-- A character that a text lacks is not its first one, nor in the rest.
includes_first :
    (x : ℕ) (xs : Text) (c : ℕ)
    → includes (x ∷ xs) c ≡ false
    → (((x == c) ≡ false) × (includes xs c ≡ false))
unfolding includes
includes_first x xs c h = elim (Bool-cases (x == c)) [
  | inl e ↦ absurd (ground (arith, e, h))
  | inr e ↦ (e, ground (arith, e, h))
]

-- The loop takes the characters of a part over into the current one.
split_quoted-inside :
    (s current rest : Text)
    → includes s b'"' ≡ false
    → split_quoted true current (s ++ rest) ≡ split_quoted true (current ++ s) rest
unfolding split_quoted includes
split_quoted-inside [] current rest h =
    ap (λ c. split_quoted true c rest) (sym (append-nil current))
split_quoted-inside (c ∷ s) current rest h =
    let (n, more) = includes_first c s b'"' h in
    let same =
      split_quoted-inside s (current ++ (c ∷ [])) rest more
      ∙ ap (λ t. split_quoted true t rest) (append_assoc current (c ∷ []) s) in
    elim (Bool-cases (c == b',')) [
      | inl comma ↦ rw (n, comma) same
      | inr other ↦ rw (n, other) same
    ]

split_quoted-outside :
    (s current rest : Text)
    → includes s b'"' ≡ false
    → includes s b',' ≡ false
    → split_quoted false current (s ++ rest) ≡ split_quoted false (current ++ s) rest
unfolding split_quoted includes
split_quoted-outside [] current rest h k =
    ap (λ c. split_quoted false c rest) (sym (append-nil current))
split_quoted-outside (c ∷ s) current rest h k =
    let (n, more) = includes_first c s b'"' h in
    let (m, others) = includes_first c s b',' k in
    rw (n, m)
      (split_quoted-outside s (current ++ (c ∷ [])) rest more others
        ∙ ap (λ t. split_quoted false t rest) (append_assoc current (c ∷ []) s))

-- A printed part is taken over whole, without its quotation marks.
split_quoted-printed :
    (p : Part) (rest : Text)
    → IsPrintable p
    → split_quoted false [] (printed p ++ rest) ≡ split_quoted false (text_of p) rest
unfolding split_quoted
split_quoted-printed (true, s) rest h =
    ap (λ t. split_quoted true [] t) (append_assoc s (b'"' ∷ []) rest)
    ∙ split_quoted-inside s [] (b'"' ∷ rest) h
split_quoted-printed (false, s) rest h = split_quoted-outside s [] rest h.0 h.1

-- Of parts without quotation marks, reading a printed record of them with commas between gives their
-- texts, whether a part stands in quotes, where it may have commas, or not, where it has none.
pub split_record-joined :
    (p : Part) (ps : List Part)
    → IsPrintable p
    → All IsPrintable ps
    → split_record (joined p ps) b',' ≡ map text_of (p ∷ ps)
unfolding split_record split_quoted
split_record-joined p [] h k =
    ap (split_quoted false []) (sym (append-nil (printed p))) ∙ split_quoted-printed p [] h
split_record-joined p (q ∷ qs) h k =
    split_quoted-printed p (b',' ∷ joined q qs) h
    ∙ ap (λ r. text_of p ∷ r) (split_record-joined q qs k.0 k.1)
