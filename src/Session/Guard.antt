-- ===== src/Session/Guard.antt =====
-- Who gets which page.
use bbgo_sass.Prelude.{
  ℕ, ◌≡◌, ◌≢◌, ◌↔◌, refl, Bool, true, false, List, [], ◌∷◌, ◌⊎◌, inl, inr, Option, none, some,
  arith, Bool-cases, ap, ◌∙◌, if◌then◌else◌,
}
use bbgo_sass.Prelude.Text.{codes, starts_with, same_text}
use bbgo_sass.Session.{
  Text, login_path, user_path, strip_locale, strip_locale_from, detect_locale, locale_prefixed_path,
  Cookie, threw, nobody, user, Auth, Reply, proceed, redirect, redirect_with_cookies,
  is_protected_route, is_auth_route, decide, update_session, bypasses, proxy,
}
use bbgo_sass.Session.Locales.{IsDetected-detect_locale, login, home, target_path, strip-prefixed}

-- What the service has said: whether there is a user, or `none` if it threw.
abbrev pub heard : Auth → Option Bool
heard a = elim a.get_user [
  | threw ↦ none
  | nobody ↦ some false
  | user id ↦ if a.refresh_throws then none else some true
]

-- Where `updateSession` itself sends the browser, if it does; a reply of the locale routing that it passes on
-- may be a redirection of that routing.
abbrev pub target_of : Reply → Option Text
target_of (proceed jar) = none
target_of (redirect p jar) = some p

protected_not_auth : (bare : Text) → is_protected_route bare ≡ true → is_auth_route bare ≡ false
unfolding is_protected_route is_auth_route starts_with same_text
protected_not_auth [] h = ground arith
protected_not_auth (a ∷ []) h = ground arith
protected_not_auth (a ∷ b ∷ bare) h = ground arith

login_open : is_protected_route login_path ≡ false
unfolding is_protected_route starts_with
login_open = refl

home_no_auth : is_auth_route user_path ≡ false
unfolding is_auth_route same_text
home_no_auth = refl

module _ (production : Bool) (path : Text) (jar : List Cookie) (a : Auth) where
  -- A request for a page of the user area proceeds exactly if the service does not say that nobody is
  -- signed in (it has a user, or it threw); else it is sent to the login page under its own locale.
  pub update_session-protected :
      is_protected_route (strip_locale path) ≡ true
      → ((target_of (update_session production path jar a) ≡ none) ↔ (heard a ≢ some false))
        × ((target_of (update_session production path jar a)
              ≡ some (locale_prefixed_path login_path (detect_locale path)))
            ↔ (heard a ≡ some false))
  unfolding update_session decide redirect_with_cookies
  update_session-protected p = (
    (ground arith, ground (arith, protected_not_auth (strip_locale path))),
    (ground (arith, protected_not_auth (strip_locale path)), ground arith),
  )

  -- A redirection leads to the login page if nobody is signed in, and to the user area if somebody is.
  target_cases :
      (p : Text)
      → target_of (update_session production path jar a) ≡ some p
      → ((heard a ≡ some false)
          × (p ≡ locale_prefixed_path (target_path login) (detect_locale path)))
        ⊎ ((heard a ≡ some true)
            × (p ≡ locale_prefixed_path (target_path home) (detect_locale path)))
  unfolding update_session decide redirect_with_cookies
  target_cases p e = ground arith

  pub stays_at_login :
      heard a ≡ some false
      → strip_locale path ≡ login_path
      → target_of (update_session production path jar a) ≡ none
  unfolding update_session decide
  stays_at_login h e =
      let open_page : is_protected_route (strip_locale path) ≡ false =
        ap is_protected_route e ∙ login_open in
      ground arith

  stays_at_home :
      heard a ≡ some true
      → strip_locale path ≡ user_path
      → target_of (update_session production path jar a) ≡ none
  unfolding update_session decide
  stays_at_home h e =
      let no_auth_page : is_auth_route (strip_locale path) ≡ false =
        ap is_auth_route e ∙ home_no_auth in
      ground arith

-- A redirection of `updateSession` is followed by no other one of its own: if it redirects a request to `p`,
-- it does not itself redirect a request for `p`, as long as the service says the same of the user. What the
-- locale routing does with `p` is not covered.
pub update_session-no_loop :
    (production : Bool) (path : Text) (jar jar' : List Cookie) (a a' : Auth) (p : Text)
    → target_of (update_session production path jar a) ≡ some p
    → heard a' ≡ heard a
    → target_of (update_session production p jar' a') ≡ none
update_session-no_loop production path jar jar' a a' p e same =
    let detected = IsDetected-detect_locale path in
    elim (target_cases production path jar a p e) [
      | inl (h, q) ↦
          stays_at_login production p jar' a' (same ∙ h)
            (ap strip_locale q ∙ strip-prefixed login (detect_locale path) detected)
      | inr (h, q) ↦
          stays_at_home production p jar' a' (same ∙ h)
            (ap strip_locale q ∙ strip-prefixed home (detect_locale path) detected)
    ]

-- The first two characters settle that a page of the user area is not let through by `proxy`.
second_of : Text → Option ℕ
second_of [] = none
second_of (a ∷ []) = none
second_of (a ∷ b ∷ rest) = some b

protected_second :
    (a b : ℕ) (rest : Text)
    → is_protected_route (strip_locale (a ∷ b ∷ rest)) ≡ true
    → (b ≡ b'u') ⊎ (b ≡ b'e') ⊎ (b ≡ b'z') ⊎ (b ≡ b'j') ⊎ (b ≡ b'k')
unfolding is_protected_route strip_locale strip_locale_from starts_with same_text
protected_second a b rest h = ground arith

starts_second :
    (a b : ℕ) (rest : Text) (c d : ℕ) (p : Text)
    → starts_with (a ∷ b ∷ rest) (c ∷ d ∷ p) ≡ true
    → b ≡ d
unfolding starts_with
starts_second a b rest c d p h = ground arith

same_second :
    (a b : ℕ) (rest : Text) (c d : ℕ) (p : Text)
    → same_text (a ∷ b ∷ rest) (c ∷ d ∷ p) ≡ true
    → b ≡ d
unfolding same_text
same_second a b rest c d p h = ground arith

bypasses_second :
    (a b : ℕ) (rest : Text)
    → bypasses (a ∷ b ∷ rest) ≡ true
    → (b ≡ b'a') ⊎ (b ≡ b'_') ⊎ (b ≡ b'f') ⊎ (b ≡ b's') ⊎ (b ≡ b'r')
unfolding bypasses
bypasses_second a b rest h = ground (
  arith,
  same_second a b rest b'/' b'a' (codes "pi"),
  starts_second a b rest b'/' b'a' (codes "pi/"),
  starts_second a b rest b'/' b'a' (codes "uth/"),
  starts_second a b rest b'/' b'_' (codes "next/"),
  same_second a b rest b'/' b'f' (codes "avicon.ico"),
  same_second a b rest b'/' b's' (codes "itemap.xml"),
  same_second a b rest b'/' b'r' (codes "obots.txt"),
)

bypasses_nil : bypasses [] ≡ false
unfolding bypasses starts_with same_text
bypasses_nil = refl

bypasses_one : (a : ℕ) → bypasses (a ∷ []) ≡ false
unfolding bypasses starts_with same_text
bypasses_one a = ground arith

protected-not-bypassed :
    (path : Text) → is_protected_route (strip_locale path) ≡ true → bypasses path ≡ false
protected-not-bypassed [] h = bypasses_nil
protected-not-bypassed (a ∷ []) h = bypasses_one a
protected-not-bypassed (a ∷ b ∷ rest) h = elim (Bool-cases (bypasses (a ∷ b ∷ rest))) [
  | inl e ↦ absurd (ground (arith, protected_second a b rest h, bypasses_second a b rest e))
  | inr e ↦ e
]

-- For every path of the user area, under any locale, `proxy` sends a request with nobody signed in to the
-- login page, whatever the locale routing has answered: none of the paths that it lets through unseen
-- lies in the user area.
pub proxy-protected :
    (production : Bool) (path : Text) (i18n_cookies : Text → List Cookie) (a : Auth)
    → is_protected_route (strip_locale path) ≡ true
    → heard a ≡ some false
    → target_of (proxy production path i18n_cookies a)
      ≡ some (locale_prefixed_path login_path (detect_locale path))
unfolding proxy
proxy-protected production path i18n_cookies a p h =
    rw (protected-not-bypassed path p)
      ((update_session-protected production path (i18n_cookies path) a p).1.1 h)
