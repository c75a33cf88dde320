-- ===== src/Manager/Replies.antt =====
-- What `request` of web/src/lib/bbgo/manager.ts makes of a response, and where an expired session leads.
use bbgo_sass.Prelude.{
  ℕ, ◌≡◌, ◌≢◌, ◌↔◌, refl, sym, append_assoc, Bool, true, false, List, [], ◌∷◌, ◌++◌, none, some,
  arith, Bool-cases, inl, inr, ◌⊎◌, ap, ◌∙◌, subst, Any,
}
use bbgo_sass.Prelude.Text.{
  codes, split, split_from, starts_with, same_text, rest_of_starts_with, split_from-current,
}
use bbgo_sass.Manager.{
  Text, Response, Browser, returned, thrown, is_ok, expired_login, expire, request,
}
use bbgo_sass.Session.{
  login_path, slash, locales, strip_locale, strip_locale_from, detect_locale, detect_locale_from,
  is_protected_route, update_session, locale_prefixed_path, Auth, Cookie,
}
use bbgo_sass.Session.Guard.{heard, target_of, update_session-protected, stays_at_login}

-- The browser once it knows that the session has expired.
abbrev pub expired_browser : Browser → Browser
expired_browser b = record {
  pathname = b.pathname;
  auth_message = some (codes "session_expired");
  timers = b.timers ++ ((5000, expired_login b.pathname) ∷ []);
}

-- `request` returns a value exactly if the response is a success with JSON, and then it is that JSON and
-- the browser is left alone. At a status of 401 the browser stays on its page with the message
-- "session_expired" and one more timer, which after 5000 ms sends it to `expired_login` of its path, and the
-- promise ends with the error "Session expired"; at any other status the browser is left as it was.
pub request-returned :
    {J : Type 0} (error_of : J → Text) (number_text : ℕ → Text) (b : Browser) (r : Response J)
    → let result = request error_of number_text b r in
      ((j : J) → (result.1 ≡ returned j) ↔ ((is_ok r.status ≡ true) × (r.json ≡ some j)))
      × ((r.status ≡ 401)
          → (result.0 ≡ expired_browser b) × (result.1 ≡ thrown (codes "Session expired")))
      × (r.status ≢ 401 → result.0 ≡ b)
unfolding request expire
request-returned error_of number_text b r =
    (λ j. (ground arith, ground arith), ground arith, ground arith)

-- A text of the user area, without a locale: so is the page that an expired session goes to.
first_segment :
    (rest : Text) → (more : Text) × (expired_login (codes "/user" ++ rest) ≡ codes "/user" ++ more)
unfolding split split_from
first_segment rest =
    let (more, e) = split_from-current b'/' (codes "user") rest in
    (more ++ codes "/login", ap (λ t. codes "/" ++ t ++ codes "/login") e)

-- The login page of a locale.
locale_segment :
    (l rest : Text)
    → Any (λ k. l ≡ k) locales
    → expired_login (slash l ++ b'/' ∷ rest) ≡ slash (l ++ login_path)
unfolding split split_from
locale_segment l rest (inl e) = rw e
locale_segment l rest (inr (inl e)) = rw e
locale_segment l rest (inr (inr (inl e))) = rw e
locale_segment l rest (inr (inr (inr (inl e)))) = rw e
locale_segment l rest (inr (inr (inr (inr (inl e))))) = rw e
locale_segment l rest (inr (inr (inr (inr (inr e))))) = elim e [ ]

locale_login :
    (l : Text) → Any (λ k. l ≡ k) locales → strip_locale (slash (l ++ login_path)) ≡ login_path
unfolding strip_locale strip_locale_from same_text starts_with
locale_login l (inl e) = rw e
locale_login l (inr (inl e)) = rw e
locale_login l (inr (inr (inl e))) = rw e
locale_login l (inr (inr (inr (inl e)))) = rw e
locale_login l (inr (inr (inr (inr (inl e))))) = rw e
locale_login l (inr (inr (inr (inr (inr e))))) = elim e [ ]

user_page : (more : Text) → is_protected_route (strip_locale (codes "/user" ++ more)) ≡ true
unfolding strip_locale strip_locale_from same_text starts_with is_protected_route
user_page more = refl

user_page_locale : (more : Text) → detect_locale (codes "/user" ++ more) ≡ none
unfolding detect_locale detect_locale_from same_text starts_with
user_page_locale more = refl

login_stripped : strip_locale login_path ≡ login_path
unfolding strip_locale strip_locale_from same_text starts_with
login_stripped = refl

home_open : is_protected_route (codes "/") ≡ false
unfolding is_protected_route starts_with
home_open = refl

-- A page of the user area is one without its locale, or has a locale before it.
protected_cases :
    (ls : List Text) (path : Text)
    → is_protected_route (strip_locale_from ls path) ≡ true
    → (is_protected_route path ≡ true)
      ⊎ ((l : Text) × (rest : Text) × (Any (λ k. l ≡ k) ls × (path ≡ slash l ++ b'/' ∷ rest)))
unfolding strip_locale_from
protected_cases [] path h = inl h
protected_cases (l ∷ ls) path h = elim (Bool-cases (same_text path (slash l))) [
  | inl same ↦ absurd (ground (arith, same, home_open))
  | inr other ↦ elim (Bool-cases (starts_with path (slash (l ++ codes "/")))) [
    | inl begins ↦
        let (rest, e) = rest_of_starts_with path (slash (l ++ codes "/")) begins in
        inr (l, rest, (inl refl, e ∙ ap (λ t. b'/' ∷ t) (append_assoc l (b'/' ∷ []) rest)))
    | inr neither ↦ elim (protected_cases ls path (ground (arith, h, other, neither))) [
      | inl found ↦ inl found
      | inr (k, rest, (a, e)) ↦ inr (k, rest, (inr a, e))
    ]
  ]
]

module _ (production : Bool) (jar jar' : List Cookie) (a : Auth)
    (signed_out : heard a ≡ some false) where
  -- The request for the page at once, or the one after the redirection, ends at a login page.
  abbrev pub ReachesLogin : Text → Type 0
  ReachesLogin p =
      ((strip_locale p ≡ login_path) × (target_of (update_session production p jar a) ≡ none))
      ⊎ ((target_of (update_session production p jar a) ≡ some login_path)
          × (target_of (update_session production login_path jar' a) ≡ none))

  ReachesLogin-user_page : (more : Text) → ReachesLogin (codes "/user" ++ more)
  unfolding locale_prefixed_path
  ReachesLogin-user_page more =
      let p = codes "/user" ++ more in
      inr (
        (update_session-protected production p jar a (user_page more)).1.1 signed_out
            ∙ ap (λ o. some (locale_prefixed_path login_path o)) (user_page_locale more),
        stays_at_login production login_path jar' a signed_out (login_stripped),
      )

  -- When `request` hears 401 on a page of the user area and nobody is signed in, the page that the browser
  -- is sent to is a login page that the guard lets through, or one that the guard redirects to `/login`,
  -- which it lets through.
  pub expired_login-ReachesLogin :
      (path : Text)
      → is_protected_route (strip_locale path) ≡ true
      → ReachesLogin (expired_login path)
  unfolding strip_locale is_protected_route
  expired_login-ReachesLogin path h = elim (protected_cases locales path h) [
    | inl bare ↦
        let (rest, e) = rest_of_starts_with path (codes "/user") bare in
        let (more, q) = first_segment rest in
        subst ReachesLogin (sym (ap expired_login e ∙ q)) (ReachesLogin-user_page more)
    | inr (l, rest, (found, e)) ↦
        let q : expired_login path ≡ slash (l ++ login_path) =
          ap expired_login e ∙ locale_segment l rest found in
        subst ReachesLogin (sym q) (
          inl (
            locale_login l found,
            stays_at_login production (slash (l ++ login_path)) jar a signed_out
                (locale_login l found),
          ))
  ]
