-- ===== src/Manager/Segments.antt =====
-- Ids in the paths of web/src/lib/bbgo/manager.ts.
use bbgo_sass.Prelude.{
  ℕ, ◌+◌, ◌/◌, ◌%◌, ◌≡◌, ◌≢◌, Bool, true, false, List, [], ◌∷◌, ◌++◌, arith, ap, ◌∙◌, sym,
  append_assoc, append-nil, All, All-append, if◌then◌else◌, ◌==◌, ltb, Bool-cases, inl, inr,
}
use bbgo_sass.Prelude.Text.{codes, split, split_from}
use bbgo_sass.Prelude.Uri.{hex_digit, percent, percent_utf8, is_unreserved, encode_uri_component}
use bbgo_sass.Manager.{Text}
use bbgo_sass.Manager.Users.{start_instance, stop_instance}

abbrev pub HasNoSlash : Text → Type 0
HasNoSlash = All (λ c. c ≢ b'/')

hex_digit-ne : (d : ℕ) → hex_digit d ≢ b'/'
hex_digit-ne d = ground arith

percent_then : (b : ℕ) (s : Text) → HasNoSlash s → HasNoSlash (percent b ++ s)
percent_then b s h = (ground arith, (hex_digit-ne (b / 16), (hex_digit-ne (b % 16), h)))

if-HasNoSlash :
    (b : Bool) (s t : Text) → HasNoSlash s → HasNoSlash t → HasNoSlash (if b then s else t)
if-HasNoSlash true s t h k = h
if-HasNoSlash false s t h k = k

append-HasNoSlash : (s t : Text) → HasNoSlash s → HasNoSlash t → HasNoSlash (s ++ t)
append-HasNoSlash s t h k = All-append _ s t h k

percent_utf8-HasNoSlash : (c : ℕ) → HasNoSlash (percent_utf8 c)
unfolding percent_utf8
percent_utf8-HasNoSlash c =
    let one = 128 + c % 64 in
    let two = 128 + c / 64 % 64 in
    let three = 128 + c / 4096 % 64 in
    let first = percent_then one [] tt in
    let second = percent_then two (percent one) first in
    let third = percent_then three (percent two ++ percent one) second in
    if-HasNoSlash (ltb c 128) (percent c)
      (if ltb c 2048
        then percent (192 + c / 64) ++ percent one
        else if ltb c 65536
        then percent (224 + c / 4096) ++ percent two ++ percent one
        else percent (240 + c / 262144) ++ percent three ++ percent two ++ percent one)
      (percent_then c [] tt)
      (if-HasNoSlash (ltb c 2048) (percent (192 + c / 64) ++ percent one)
        (if ltb c 65536
          then percent (224 + c / 4096) ++ percent two ++ percent one
          else percent (240 + c / 262144) ++ percent three ++ percent two ++ percent one)
        (percent_then (192 + c / 64) (percent one) first)
        (if-HasNoSlash (ltb c 65536) (percent (224 + c / 4096) ++ percent two ++ percent one)
          (percent (240 + c / 262144) ++ percent three ++ percent two ++ percent one)
          (percent_then (224 + c / 4096) (percent two ++ percent one) second)
          (percent_then (240 + c / 262144) (percent three ++ percent two ++ percent one) third)))

encode_uri_component-HasNoSlash : (s : Text) → HasNoSlash (encode_uri_component s)
unfolding encode_uri_component
encode_uri_component-HasNoSlash [] = tt
encode_uri_component-HasNoSlash (c ∷ s) = elim (Bool-cases (is_unreserved c)) [
  | inl e ↦ rw e (ground arith, encode_uri_component-HasNoSlash s)
  | inr e ↦ rw e (
      append-HasNoSlash (percent_utf8 c) (encode_uri_component s) (percent_utf8-HasNoSlash c)
        (encode_uri_component-HasNoSlash s))
]

split_from-last :
    (s current : Text) → HasNoSlash s → split_from b'/' current s ≡ (current ++ s) ∷ []
unfolding split_from
split_from-last [] current h = ap (λ t. t ∷ []) (sym (append-nil current))
split_from-last (c ∷ s) current h =
    let other : (c == b'/') ≡ false = ground (arith, h.0) in
    rw other (
      split_from-last s (current ++ (c ∷ [])) h.1
      ∙ ap (λ t. t ∷ []) (append_assoc current (c ∷ []) s))

split_from-part :
    (s current rest : Text)
    → HasNoSlash s
    → split_from b'/' current (s ++ b'/' ∷ rest) ≡ (current ++ s) ∷ split_from b'/' [] rest
unfolding split_from
split_from-part [] current rest h = ap (λ t. t ∷ split_from b'/' [] rest) (sym (append-nil current))
split_from-part (c ∷ s) current rest h =
    let other : (c == b'/') ≡ false = ground (arith, h.0) in
    rw other (
      split_from-part s (current ++ (c ∷ [])) rest h.1
      ∙ ap (λ t. t ∷ split_from b'/' [] rest) (append_assoc current (c ∷ []) s))

-- The segments of a path.
abbrev pub segments : Text → List Text
segments path = split b'/' path

-- `/users/u/instances/i/last`
instance_path :
    (u i last : Text)
    → HasNoSlash u
    → HasNoSlash i
    → HasNoSlash last
    → segments ((codes "/users/" ++ u) ++ (codes "/instances/" ++ (i ++ b'/' ∷ last)))
      ≡ [] ∷ codes "users" ∷ u ∷ codes "instances" ∷ i ∷ last ∷ []
unfolding split split_from
instance_path u i last hu hi hl =
    let rest = codes "instances/" ++ (i ++ b'/' ∷ last) in
    ap (λ ps. [] ∷ codes "users" ∷ ps)
      (split_from-part u [] rest hu
        ∙ ap (λ ps. u ∷ codes "instances" ∷ ps)
            (split_from-part i [] last hi ∙ ap (λ ps. i ∷ ps) (split_from-last last [] hl)))

start_no_slash : HasNoSlash (codes "start")
start_no_slash = (ground arith, (ground arith, (ground arith, (ground arith, (ground arith, tt)))))

stop_no_slash : HasNoSlash (codes "stop")
stop_no_slash = (ground arith, (ground arith, (ground arith, (ground arith, tt))))

-- For a user id without a slash, splitting the path of a request that starts or stops an instance at its
-- slashes gives the same six segments whatever the instance id is, of which the encoded id is one: no
-- character of the id adds a segment. What `fetch` makes of a segment of dots is not covered.
pub segments-start_instance :
    (user_id instance_id : Text)
    → HasNoSlash user_id
    → let part = encode_uri_component instance_id in
      (segments (start_instance user_id instance_id).path
        ≡ [] ∷ codes "users" ∷ user_id ∷ codes "instances" ∷ part ∷ codes "start" ∷ [])
      × (segments (stop_instance user_id instance_id).path
          ≡ [] ∷ codes "users" ∷ user_id ∷ codes "instances" ∷ part ∷ codes "stop" ∷ [])
unfolding start_instance stop_instance
segments-start_instance u i h =
    let part = encode_uri_component i in
    let safe = encode_uri_component-HasNoSlash i in
    (
      instance_path u part (codes "start") h safe start_no_slash,
      instance_path u part (codes "stop") h safe stop_no_slash,
    )
