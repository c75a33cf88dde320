-- ===== src/Prelude/Uri.antt =====
-- `encodeURIComponent`, `decodeURIComponent` and `URLSearchParams` of the language, on texts as lists of
-- code points.
use bbgo_sass.Prelude.{
  ℕ, zero, suc, ◌+◌, ◌-◌, ◌*◌, ◌/◌, ◌%◌, ◌≡◌, refl, Bool, false, ◌&&◌, ◌||◌, List, [], ◌∷◌, ◌++◌,
  Option, none, some, leb, ltb, ◌==◌, if◌then◌else◌, arith, All, length, ◌≢◌,
}
use bbgo_sass.Prelude.Text.{same_text}
use bbgo_sass.Prelude.Dict.{set_entry}

abbrev pub hex_digit : ℕ → ℕ
hex_digit d = if ltb d 10 then 48 + d else 55 + d

abbrev pub percent : ℕ → List ℕ
percent b = b'%' ∷ hex_digit (b / 16) ∷ hex_digit (b % 16) ∷ []

-- The bytes of a code point in UTF-8, each percent-encoded.
unfoldable pub percent_utf8 : ℕ → List ℕ
percent_utf8 c =
    if ltb c 128
    then percent c
    else if ltb c 2048
    then percent (192 + c / 64) ++ percent (128 + c % 64)
    else if ltb c 65536
    then percent (224 + c / 4096) ++ percent (128 + c / 64 % 64) ++ percent (128 + c % 64)
    else percent (240 + c / 262144)
      ++ percent (128 + c / 4096 % 64)
      ++ percent (128 + c / 64 % 64)
      ++ percent (128 + c % 64)

abbrev pub is_alphanumeric : ℕ → Bool
is_alphanumeric c =
    (leb b'A' c && leb c b'Z') || (leb b'a' c && leb c b'z') || (leb b'0' c && leb c b'9')

-- The characters that `encodeURIComponent` leaves as they are.
abbrev pub is_unreserved : ℕ → Bool
is_unreserved c =
    is_alphanumeric c
    || c == b'-'
    || c == b'_'
    || c == b'.'
    || c == b'!'
    || c == b'~'
    || c == b'*'
    || c == 39
    || c == b'('
    || c == b')'

unfoldable pub encode_uri_component : List ℕ → List ℕ
encode_uri_component [] = []
encode_uri_component (c ∷ s) =
    (if is_unreserved c then c ∷ [] else percent_utf8 c) ++ encode_uri_component s

-- The characters that the serializer of a query leaves as they are; it writes a space as `+`.
abbrev pub is_plain : ℕ → Bool
is_plain c = is_alphanumeric c || c == b'*' || c == b'-' || c == b'.' || c == b'_'

unfoldable pub form_encode : List ℕ → List ℕ
form_encode [] = []
form_encode (c ∷ s) =
    (if is_plain c then c ∷ [] else if c == 32 then b'+' ∷ [] else percent_utf8 c) ++ form_encode s

-- `URLSearchParams`, as far as the code uses it.
abbrev pub Params : Type 0
Params = List (List ℕ × List ℕ)

-- `params.set(k, v)`
abbrev pub set_param : List ℕ → List ℕ → Params → Params
set_param k v ps = set_entry same_text k v ps

-- `if (v) params.set(k, v)`
abbrev pub set_if : List ℕ → Option (List ℕ) → Params → Params
set_if k none ps = ps
set_if k (some []) ps = ps
set_if k (some (c ∷ v)) ps = set_param k (c ∷ v) ps

unfoldable pub pair_text : List ℕ × List ℕ → List ℕ
pair_text p = form_encode p.0 ++ b'=' ∷ form_encode p.1

-- `params.toString()`
unfoldable pub query_text : Params → List ℕ
query_text [] = []
query_text (p ∷ []) = pair_text p
query_text (p ∷ q ∷ ps) = pair_text p ++ b'&' ∷ query_text (q ∷ ps)

abbrev pub hex_value : ℕ → Option ℕ
hex_value c =
    if leb b'0' c && leb c b'9'
    then some (c - 48)
    else if leb b'A' c && leb c b'F'
    then some (c - 55)
    else if leb b'a' c && leb c b'f'
    then some (c - 87)
    else none

-- A byte that is percent-encoded, and what follows it.
unfoldable pub read_byte : List ℕ → Option (ℕ × List ℕ)
read_byte (p ∷ h ∷ l ∷ s) = elim (hex_value h) [
  | none ↦ none
  | some a ↦ elim (hex_value l) [
    | none ↦ none
    | some b ↦ if p == b'%' then some (16 * a + b, s) else none
  ]
]
read_byte _ = none

-- `n` more bytes of a code point.
unfoldable pub read_more : ℕ → ℕ → Option (ℕ × List ℕ) → Option (ℕ × List ℕ)
read_more n c none = none
read_more zero c (some (b, s)) =
    if leb 128 b && ltb b 192 then some (64 * c + (b - 128), s) else none
read_more (suc n) c (some (b, s)) =
    let rest = read_more n (64 * c + (b - 128)) (read_byte s) in
    if leb 128 b && ltb b 192 then rest else none

abbrev pub at_least : ℕ → Option (ℕ × List ℕ) → Option (ℕ × List ℕ)
at_least n none = none
at_least n (some (c, s)) =
    if leb n c && ltb c 1114112 && (ltb c 55296 || ltb 57343 c) then some (c, s) else none

-- A code point from its first byte on.
unfoldable pub read_point : Option (ℕ × List ℕ) → Option (ℕ × List ℕ)
read_point none = none
read_point (some (b, s)) =
    if ltb b 128
    then some (b, s)
    else if leb 192 b && ltb b 224
    then at_least 128 (read_more 0 (b - 192) (read_byte s))
    else if leb 224 b && ltb b 240
    then at_least 2048 (read_more 1 (b - 224) (read_byte s))
    else if leb 240 b && ltb b 248
    then at_least 65536 (read_more 2 (b - 240) (read_byte s))
    else none

-- `decodeURIComponent`, on fuel; `none` where it throws.
unfoldable pub decode_from : ℕ → List ℕ → Option (List ℕ)
decode_from fuel [] = some []
decode_from zero (c ∷ s) = none
decode_from (suc fuel) (c ∷ s) =
    let plain = elim (decode_from fuel s) as (λ r. Option (List ℕ)) [
      | none ↦ none
      | some r ↦ some (c ∷ r)
    ] in
    let escaped = elim (read_point (read_byte (c ∷ s))) as (λ r. Option (List ℕ)) [
      | none ↦ none
      | some p ↦ elim (decode_from fuel p.1) [ none ↦ none | some r ↦ some (p.0 ∷ r) ]
    ] in
    if c == b'%' then escaped else plain

unfoldable pub decode_uri_component : List ℕ → Option (List ℕ)
decode_uri_component s = decode_from (length s) s

-- A text without `%` is decoded to itself.
pub decode_uri_component-plain :
    (s : List ℕ) → All (λ c. c ≢ b'%') s → decode_uri_component s ≡ some s
unfolding decode_uri_component decode_from
decode_uri_component-plain s h = go s h
  where
    go : (t : List ℕ) → All (λ c. c ≢ b'%') t → decode_from (length t) t ≡ some t
    go [] k = refl
    go (c ∷ t) k = let other : (c == b'%') ≡ false = ground (arith, k.0) in rw (other, go t k.1)
