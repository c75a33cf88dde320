-- ===== src/Fifo/Symbols.antt =====
-- `extractBaseCurrency` of web/src/lib/bbgo/fifo-pnl.ts. Texts are lists of code units.
use bbgo_sass.Prelude.{
  ℕ, ◌-◌, ◌≡◌, refl, Bool, List, [], ◌∷◌, ◌++◌, arith, leb, length, take, if◌then◌else◌, Any, inl,
  inr, ap, length-append,
}
use bbgo_sass.Prelude.Sort.{sort, insert_sorted}
use bbgo_sass.Prelude.Text.{codes, starts_with}

abbrev pub Text : Type 0
Text = List ℕ

-- `s` backwards, before `acc`.
abbrev backwards_onto : Text → Text → Text
backwards_onto [] acc = acc
backwards_onto (c ∷ s) acc = backwards_onto s (c ∷ acc)

abbrev pub backwards : Text → Text
backwards s = backwards_onto s []

-- `s.endsWith(q)`
unfoldable pub ends_with : Text → Text → Bool
ends_with s q = starts_with (backwards s) (backwards q)

-- `QUOTE_CURRENCIES`: the longer ones first.
abbrev pub quote_names : List Text
quote_names =
    codes "USDT"
    ∷ codes "FDUSD"
    ∷ codes "BUSD"
    ∷ codes "USDC"
    ∷ codes "TUSD"
    ∷ codes "DAI"
    ∷ codes "BTC"
    ∷ codes "ETH"
    ∷ codes "BNB"
    ∷ []

unfoldable pub quotes : List Text
quotes = sort (λ a b. leb (length b) (length a)) quote_names

-- The loop of `extractBaseCurrency`.
unfoldable pub base_of : List Text → Text → Text
base_of [] symbol = symbol
base_of (q ∷ qs) symbol =
    if ends_with symbol q then take (length symbol - length q) symbol else base_of qs symbol

unfoldable pub extract_base_currency : Text → Text
extract_base_currency symbol = base_of quotes symbol

backwards_onto-append :
    (s t acc : Text) → backwards_onto (s ++ t) acc ≡ backwards_onto t (backwards_onto s acc)
backwards_onto-append [] t acc = refl
backwards_onto-append (c ∷ s) t acc = backwards_onto-append s t (c ∷ acc)

take-length : (s t : Text) → take (length s) (s ++ t) ≡ s
take-length [] t = refl
take-length (c ∷ s) t = ap (λ r. c ∷ r) (take-length s t)

take_init : (s t : Text) → take (length (s ++ t) - length t) (s ++ t) ≡ s
take_init s t =
    let count : length (s ++ t) - length t ≡ length s = omega (arith, length-append s t) in
    rw count (take-length s t)

-- The base of a symbol made of a base, whatever it is, and one of the quote currencies is that base.
pub extract_base_currency-append :
    (base q : Text) → Any (λ k. q ≡ k) quote_names → extract_base_currency (base ++ q) ≡ base
unfolding extract_base_currency quotes sort insert_sorted base_of ends_with starts_with
extract_base_currency-append base q (inl e) =
    rw (e, backwards_onto-append base (codes "USDT") []) (take_init base (codes "USDT"))
extract_base_currency-append base q (inr (inl e)) =
    rw (e, backwards_onto-append base (codes "FDUSD") []) (take_init base (codes "FDUSD"))
extract_base_currency-append base q (inr (inr (inl e))) =
    rw (e, backwards_onto-append base (codes "BUSD") []) (take_init base (codes "BUSD"))
extract_base_currency-append base q (inr (inr (inr (inl e)))) =
    rw (e, backwards_onto-append base (codes "USDC") []) (take_init base (codes "USDC"))
extract_base_currency-append base q (inr (inr (inr (inr (inl e))))) =
    rw (e, backwards_onto-append base (codes "TUSD") []) (take_init base (codes "TUSD"))
extract_base_currency-append base q (inr (inr (inr (inr (inr (inl e)))))) =
    rw (e, backwards_onto-append base (codes "DAI") []) (take_init base (codes "DAI"))
extract_base_currency-append base q (inr (inr (inr (inr (inr (inr (inl e))))))) =
    rw (e, backwards_onto-append base (codes "BTC") []) (take_init base (codes "BTC"))
extract_base_currency-append base q (inr (inr (inr (inr (inr (inr (inr (inl e)))))))) =
    rw (e, backwards_onto-append base (codes "ETH") []) (take_init base (codes "ETH"))
extract_base_currency-append base q (inr (inr (inr (inr (inr (inr (inr (inr (inl e))))))))) =
    rw (e, backwards_onto-append base (codes "BNB") []) (take_init base (codes "BNB"))
extract_base_currency-append base q (inr (inr (inr (inr (inr (inr (inr (inr (inr e))))))))) =
    absurd e
