-- ===== src/Session.antt =====
-- web/src/lib/supabase/middleware-auth.ts, web/src/proxy.ts, web/src/lib/routes.ts and
-- web/src/i18n/routing.ts. Paths are lists of code units. The authentication service is outside the
-- repository: what a request hears from it is an argument, and so is the reply of the locale routing.
pub mod Locales
pub mod Guard
pub mod Cookies
mod Tests
use text.Mathlib.Text.{◌==◌ as str_eq}
use bbgo_sass.Prelude.{
  ℕ, suc, ◌+◌, ◌*◌, Bool, true, false, not, ◌&&◌, ◌||◌, List, [], ◌∷◌, ◌++◌, map, Option, none,
  some, String, if◌then◌else◌, length, drop,
}
use bbgo_sass.Prelude.Text.{codes, starts_with, same_text}

abbrev pub Text : Type 0
Text = List ℕ

abbrev pub login_path : Text
login_path = codes "/login"

abbrev pub signup_path : Text
signup_path = codes "/signup"

abbrev pub user_path : Text
user_path = codes "/user"

abbrev pub locales : List Text
locales = codes "en" ∷ codes "zh" ∷ codes "zh-TW" ∷ codes "ja" ∷ codes "ko" ∷ []

abbrev pub default_locale : Text
default_locale = codes "en"

abbrev pub slash : Text → Text
slash s = codes "/" ++ s

-- The loop of `stripLocale`.
unfoldable pub strip_locale_from : List Text → Text → Text
strip_locale_from [] path = path
strip_locale_from (l ∷ ls) path =
    if same_text path (slash l)
    then codes "/"
    else if starts_with path (slash (l ++ codes "/"))
    then drop (length l + 1) path
    else strip_locale_from ls path

unfoldable pub strip_locale : Text → Text
strip_locale path = strip_locale_from locales path

-- The loop of `detectLocale`.
unfoldable pub detect_locale_from : List Text → Text → Option Text
detect_locale_from [] path = none
detect_locale_from (l ∷ ls) path =
    if same_text path (slash l) || starts_with path (slash (l ++ codes "/"))
    then some l
    else detect_locale_from ls path

unfoldable pub detect_locale : Text → Option Text
detect_locale path = detect_locale_from locales path

-- `!locale` holds of the empty text too.
unfoldable pub locale_prefixed_path : Text → Option Text → Text
locale_prefixed_path bare none = bare
locale_prefixed_path bare (some l) =
    if same_text l [] || same_text l default_locale then bare else slash (l ++ bare)

-- Of the options of a cookie, those that the code sets, and whether scripts may not read it.
pub record CookieOptions : Type 0 where
  pub secure : Bool
  pub same_site : String
  pub max_age : ℕ
  pub path : String
  pub http_only : Bool

pub record Cookie : Type 0 where
  pub name : String
  pub value : String
  pub options : CookieOptions

abbrev pub cookie_max_age : ℕ
cookie_max_age = 60 * 60 * 24 * 7

-- `secureCookieOptions`, for `production` saying whether NODE_ENV is that. It leaves `httpOnly` out.
abbrev pub secure_cookie_options : Bool → CookieOptions
secure_cookie_options production = record {
  secure = production;
  same_site = "lax";
  max_age = cookie_max_age;
  path = "/";
  http_only = false;
}

-- `{ ...options, ...secureCookieOptions }`
unfoldable pub secured : Bool → CookieOptions → CookieOptions
secured production o = record o {
  secure = production;
  same_site = "lax";
  max_age = cookie_max_age;
  path = "/";
}

-- `cookies.set(name, value, options)` of a reply: a cookie of that name is replaced.
unfoldable pub set_cookie : Cookie → List Cookie → List Cookie
set_cookie c [] = c ∷ []
set_cookie c (d ∷ ds) = if str_eq d.name c.name then c ∷ ds else d ∷ set_cookie c ds

unfoldable pub set_cookies : List Cookie → List Cookie → List Cookie
set_cookies [] jar = jar
set_cookies (c ∷ cs) jar = set_cookies cs (set_cookie c jar)

-- What `getUser` and `refreshSession` do: they throw, or say who the user is. Before that they have
-- called `setAll` with some cookies.
pub data User : Type 0 where
  threw : User
  nobody : User
  user : String → User

pub record Auth : Type 0 where
  pub get_user : User
  pub refresh_throws : Bool
  pub cookies_to_set : List Cookie

-- `proceed` hands back the reply that the function was given, that of the locale routing (which may be a
-- redirection of its own) or `NextResponse.next()`, of which only the cookies are kept here, since the
-- code changes nothing else of it; `redirect` is a new reply that redirects to a path.
pub data Reply : Type 0 where
  proceed : List Cookie → Reply
  redirect : Text → List Cookie → Reply

-- `setAll`, as far as it writes to the reply.
unfoldable pub set_all : Bool → List Cookie → List Cookie → List Cookie
set_all production cookies jar =
    set_cookies
      (map {A = Cookie} (λ c. record c { options = secured production c.options }) cookies) jar

-- The cookies of the reply are set anew on the redirection.
unfoldable pub redirect_with_cookies : Bool → List Cookie → Text → Option Text → Reply
redirect_with_cookies production jar target locale = redirect (locale_prefixed_path target locale) (
    set_cookies
      (map {A = Cookie} (λ c. record c { options = secure_cookie_options production }) jar) [])

unfoldable pub is_protected_route : Text → Bool
is_protected_route bare = starts_with bare user_path

unfoldable pub is_auth_route : Text → Bool
is_auth_route bare = same_text bare login_path || same_text bare signup_path

-- The end of `updateSession`, once the service has answered.
unfoldable pub decide : Bool → List Cookie → Text → Option Text → (has_user : Bool) → Reply
decide production jar bare locale has_user =
    if is_protected_route bare && not has_user
    then redirect_with_cookies production jar login_path locale
    else if has_user && is_auth_route bare
    then redirect_with_cookies production jar user_path locale
    else proceed jar

-- `updateSession` for a request of `pathname`, with the cookies of the reply that it is given. A service
-- that throws lets the request through.
unfoldable pub update_session : Bool → Text → List Cookie → Auth → Reply
update_session production pathname reply_cookies auth =
    let jar = set_all production auth.cookies_to_set reply_cookies in
    let bare = strip_locale pathname in
    let locale = detect_locale pathname in
    elim auth.get_user [
      | threw ↦ proceed jar
      | nobody ↦ decide production jar bare locale false
      | user id ↦
          if auth.refresh_throws then proceed jar else decide production jar bare locale true
    ]

-- The first three tests of `proxy`: the paths that it lets through as they are.
unfoldable pub bypasses : Text → Bool
bypasses p =
    same_text p (codes "/api")
    || starts_with p (codes "/api/")
    || starts_with p (codes "/auth/")
    || starts_with p (codes "/_next/")
    || same_text p (codes "/favicon.ico")
    || same_text p (codes "/sitemap.xml")
    || same_text p (codes "/robots.txt")

-- `proxy`, for the cookies that the locale routing puts on its reply.
unfoldable pub proxy : Bool → Text → (i18n_cookies : Text → List Cookie) → Auth → Reply
proxy production pathname i18n_cookies auth =
    if bypasses pathname
    then proceed []
    else update_session production pathname (i18n_cookies pathname) auth
