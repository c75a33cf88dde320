-- ===== src/Session/Cookies.antt =====
-- The cookies of the replies.
use text.Mathlib.Text.{◌==◌ as str_eq}
use text.Mathlib.TextEquality.{eq_iff}
use bbgo_sass.Prelude.{
  ◌≡◌, ◌≢◌, refl, Bool, true, false, List, [], ◌∷◌, ◌++◌, map, Option, String, arith, Bool-cases,
  inl, inr, All, All-append, All-map₂, All-intro, ap, sym, append_assoc, append-nil, subst, ◌∙◌,
  none, some, if◌then◌else◌,
}
use bbgo_sass.Session.{
  Text, Cookie, secured, secure_cookie_options, set_cookie, set_cookies, set_all, Reply, proceed,
  redirect, redirect_with_cookies, decide, locale_prefixed_path, strip_locale, detect_locale, Auth,
  update_session, login_path, user_path,
}

-- No two cookies of a reply have one name.
abbrev pub HasDistinctNames : List Cookie → Type 0
HasDistinctNames [] = Unit
HasDistinctNames (c ∷ cs) = All (λ d. c.name ≢ d.name) cs × HasDistinctNames cs

set_cookie-All :
    (n : String) (c : Cookie) (jar : List Cookie)
    → n ≢ c.name
    → All (λ d. n ≢ d.name) jar
    → All (λ d. n ≢ d.name) (set_cookie c jar)
unfolding set_cookie
set_cookie-All n c [] h a = (h, tt)
set_cookie-All n c (d ∷ ds) h a = elim (Bool-cases (str_eq d.name c.name)) [
  | inl e ↦ rw e (h, a.1)
  | inr e ↦ rw e (a.0, set_cookie-All n c ds h a.1)
]

set_cookie-HasDistinctNames :
    (c : Cookie) (jar : List Cookie) → HasDistinctNames jar → HasDistinctNames (set_cookie c jar)
unfolding set_cookie
set_cookie-HasDistinctNames c [] h = (tt, tt)
set_cookie-HasDistinctNames c (d ∷ ds) h = elim (Bool-cases (str_eq d.name c.name)) [
  | inl e ↦
      let same : d.name ≡ c.name = (eq_iff d.name c.name).0 e in
      rw e (subst (λ n. All (λ k. n ≢ k.name) ds) same h.0, h.1)
  | inr e ↦ rw e (
    set_cookie-All d.name c ds (λ q. ground (arith, eq_iff d.name c.name)) h.0,
    set_cookie-HasDistinctNames c ds h.1,
  )
]

pub set_cookies-HasDistinctNames :
    (cs jar : List Cookie) → HasDistinctNames jar → HasDistinctNames (set_cookies cs jar)
unfolding set_cookies
set_cookies-HasDistinctNames [] jar h = h
set_cookies-HasDistinctNames (c ∷ cs) jar h =
    set_cookies-HasDistinctNames cs (set_cookie c jar) (set_cookie-HasDistinctNames c jar h)

set_cookie_new :
    (c : Cookie) (jar : List Cookie)
    → All (λ d. d.name ≢ c.name) jar
    → set_cookie c jar ≡ jar ++ (c ∷ [])
unfolding set_cookie
set_cookie_new c [] h = refl
set_cookie_new c (d ∷ ds) h = ground (arith, eq_iff d.name c.name, h.0, set_cookie_new c ds h.1)

-- Setting cookies of distinct names on a reply that has none of them adds them in order.
set_cookies_new :
    (cs jar : List Cookie)
    → HasDistinctNames cs
    → All (λ c. All (λ d. d.name ≢ c.name) jar) cs
    → set_cookies cs jar ≡ jar ++ cs
unfolding set_cookies
set_cookies_new [] jar d h = sym (append-nil jar)
set_cookies_new (c ∷ cs) jar d h = rw (set_cookie_new c jar h.0) (
    set_cookies_new cs (jar ++ (c ∷ [])) d.1
      (All-map₂ (λ k a b. All-append (λ d. d.name ≢ k.name) jar (c ∷ []) a (b, tt)) cs h.1 d.0)
    ∙ append_assoc jar (c ∷ []) cs)

module _ (production : Bool) where
  abbrev pub secure_all : List Cookie → List Cookie
  secure_all = map {A = Cookie} (λ c. record c { options = secure_cookie_options production })

  secure_all-ne :
      (n : String) (cs : List Cookie)
      → All (λ d. n ≢ d.name) cs
      → All (λ d. n ≢ d.name) (secure_all cs)
  secure_all-ne n [] h = tt
  secure_all-ne n (c ∷ cs) h = (h.0, secure_all-ne n cs h.1)

  secure_all-HasDistinctNames :
      (cs : List Cookie) → HasDistinctNames cs → HasDistinctNames (secure_all cs)
  secure_all-HasDistinctNames [] h = tt
  secure_all-HasDistinctNames (c ∷ cs) h =
      (secure_all-ne c.name cs h.0, secure_all-HasDistinctNames cs h.1)

  redirect_with_cookies_lem :
      (jar : List Cookie) (target : Text) (locale : Option Text)
      → HasDistinctNames jar
      → redirect_with_cookies production jar target locale
        ≡ redirect (locale_prefixed_path target locale) (secure_all jar)
  unfolding redirect_with_cookies
  redirect_with_cookies_lem jar target locale h =
      ap (redirect (locale_prefixed_path target locale)) (
        set_cookies_new (secure_all jar) [] (secure_all-HasDistinctNames jar h)
          (All-intro _ (λ c. tt) (secure_all jar)))

  -- What a reply made from the cookies `jar` carries.
  abbrev pub Carries : List Cookie → Reply → Type 0
  Carries jar (proceed cookies) = cookies ≡ jar
  Carries jar (redirect p cookies) = cookies ≡ secure_all jar

  decide-Carries :
      (jar : List Cookie) (bare : Text) (locale : Option Text) (has_user : Bool)
      → HasDistinctNames jar
      → Carries jar (decide production jar bare locale has_user)
  unfolding decide
  decide-Carries jar bare locale has_user h =
      rw
        (
          redirect_with_cookies_lem jar login_path locale h,
          redirect_with_cookies_lem jar user_path locale h,
        )
        (ground arith)

-- The base reply's cookies after the service has set some.
base_Carries :
    (production : Bool) (path : Text) (jar : List Cookie) (a : Auth)
    → HasDistinctNames jar
    → HasDistinctNames (set_all production a.cookies_to_set jar)
      × Carries production
          (set_all production a.cookies_to_set jar)
          (update_session production path jar a)
unfolding update_session set_all
base_Carries production path jar a h =
    let base = set_all production a.cookies_to_set jar in
    let distinct =
      set_cookies-HasDistinctNames
        (map {A = Cookie} (λ c. record c { options = secured production c.options })
          a.cookies_to_set)
        jar h in
    let decided = decide-Carries production base (strip_locale path) (detect_locale path) in
    (distinct, ground (arith, decided true distinct, decided false distinct))

-- The first cookie of a name, and the last one.
unfoldable pub cookie_named : String → List Cookie → Option Cookie
cookie_named n [] = none
cookie_named n (c ∷ cs) = let rest = cookie_named n cs in if str_eq c.name n then some c else rest

abbrev pub or_else : Option Cookie → Option Cookie → Option Cookie
or_else none other = other
or_else (some c) other = some c

unfoldable pub last_named : String → List Cookie → Option Cookie
last_named n [] = none
last_named n (c ∷ cs) = or_else (last_named n cs) (if str_eq c.name n then some c else none)

-- A cookie under the site's options, as far as they go, and whether scripts may not read it.
abbrev pub hardened : (production http_only : Bool) → Cookie → Cookie
hardened production http_only c = record {
  name = c.name;
  value = c.value;
  options = record {
    secure = production;
    same_site = "lax";
    max_age = 604800;
    path = "/";
    http_only = http_only;
  };
}

abbrev pub set_or : Bool → Option Cookie → Option Cookie → Option Cookie
set_or production none other = other
set_or production (some c) other = some (hardened production c.options.http_only c)

-- The cookie of a name: the last one that the service has set, or else the one that was there.
abbrev pub expected : Bool → String → (to_set jar : List Cookie) → Option Cookie
expected production n to_set jar = set_or production (last_named n to_set) (cookie_named n jar)

set_or-or_else :
    (production b : Bool) (c : Cookie) (later there : Option Cookie)
    → set_or production later
        (if b then some (hardened production c.options.http_only c) else there)
      ≡ set_or production (or_else later (if b then some c else none)) there
set_or-or_else production true c none there = refl
set_or-or_else production false c none there = refl
set_or-or_else production b c (some d) there = refl

cookie_named-set_cookie :
    (n : String) (c : Cookie) (jar : List Cookie)
    → cookie_named n (set_cookie c jar) ≡ (if str_eq c.name n then some c else cookie_named n jar)
unfolding cookie_named set_cookie
cookie_named-set_cookie n c [] = refl
cookie_named-set_cookie n c (d ∷ ds) = elim (Bool-cases (str_eq d.name c.name)) [
  | inr e ↦ elim (Bool-cases (str_eq c.name n)) [
    | inl f ↦ elim (Bool-cases (str_eq d.name n)) [
      | inl g ↦ absurd (ground (arith, eq_iff d.name c.name, eq_iff c.name n, eq_iff d.name n))
      | inr g ↦ rw (e, f, g) (cookie_named-set_cookie n c ds ∙ (rw f))
    ]
    | inr f ↦ elim (Bool-cases (str_eq d.name n)) [
      | inl g ↦ rw (e, f, g)
      | inr g ↦ rw (e, f, g) (cookie_named-set_cookie n c ds ∙ (rw f))
    ]
  ]
  | inl e ↦ elim (Bool-cases (str_eq c.name n)) [
    | inl f ↦ rw (e, f)
    | inr f ↦
        let other : str_eq d.name n ≡ false =
          ap (λ k. str_eq k n) ((eq_iff d.name c.name).0 e) ∙ f in
        rw (e, f, other)
  ]
]

cookie_named-set_all :
    (production : Bool) (n : String) (cs jar : List Cookie)
    → cookie_named n (set_all production cs jar) ≡ expected production n cs jar
unfolding set_all set_cookies secured last_named
cookie_named-set_all production n [] jar = refl
cookie_named-set_all production n (c ∷ cs) jar =
    let h = hardened production c.options.http_only c in
    cookie_named-set_all production n cs (set_cookie h jar)
    ∙ ap (set_or production (last_named n cs)) (cookie_named-set_cookie n h jar)
    ∙ set_or-or_else production (str_eq c.name n) c (last_named n cs) (cookie_named n jar)

-- A found cookie under the site's options alone, readable by scripts.
abbrev pub bare_of : Bool → Option Cookie → Option Cookie
bare_of production none = none
bare_of production (some c) = some (hardened production false c)

cookie_named-secure_all :
    (production : Bool) (n : String) (jar : List Cookie)
    → cookie_named n (secure_all production jar) ≡ bare_of production (cookie_named n jar)
unfolding cookie_named
cookie_named-secure_all production n [] = refl
cookie_named-secure_all production n (c ∷ cs) = elim (Bool-cases (str_eq c.name n)) [
  | inl e ↦ rw e
  | inr e ↦ rw e (cookie_named-secure_all production n cs)
]

-- A reply has one cookie to a name at most, and under the name `n` the one that is expected, or that one
-- under the options alone if the reply is a redirection.
abbrev pub HasCookies : Bool → String → Option Cookie → Reply → Type 0
HasCookies production n e (proceed cookies) =
    HasDistinctNames cookies × (cookie_named n cookies ≡ e)
HasCookies production n e (redirect p cookies) =
    HasDistinctNames cookies × (cookie_named n cookies ≡ bare_of production e)

Carries-HasCookies :
    (production : Bool) (n : String) (e : Option Cookie) (base : List Cookie) (r : Reply)
    → HasDistinctNames base
    → cookie_named n base ≡ e
    → Carries production base r
    → HasCookies production n e r
Carries-HasCookies production n e base (proceed cookies) d f c =
    (subst HasDistinctNames (sym c) d, ap (cookie_named n) c ∙ f)
Carries-HasCookies production n e base (redirect p cookies) d f c = (
  subst HasDistinctNames (sym c) (secure_all-HasDistinctNames production base d),
  ap (cookie_named n) c ∙ cookie_named-secure_all production n base ∙ ap (bare_of production) f,
)

-- With one cookie to a name on the reply that `updateSession` is given, its own reply has one cookie to a
-- name at most. If the request goes on, that is the last one of the name that the service has set, with
-- `secure` in production alone, `sameSite` lax, a week of 604800 seconds, the path "/" and the `httpOnly` of
-- the service, or else the one of the given reply as it was. If it is redirected, it is that cookie under
-- the same four options, and `httpOnly` is lost.
pub update_session-HasCookies :
    (production : Bool) (path : Text) (jar : List Cookie) (a : Auth) (n : String)
    → HasDistinctNames jar
    → HasCookies production n
        (expected production n a.cookies_to_set jar)
        (update_session production path jar a)
update_session-HasCookies production path jar a n h =
    let (distinct, carried) = base_Carries production path jar a h in
    Carries-HasCookies production n (expected production n a.cookies_to_set jar)
      (set_all production a.cookies_to_set jar) (update_session production path jar a) distinct
      (cookie_named-set_all production n a.cookies_to_set jar) carried
