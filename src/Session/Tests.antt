-- ===== src/Session/Tests.antt =====
-- Runs of the guard, and the theorems about it at inputs.
use bbgo_sass.Prelude.{◌≡◌, ◌≢◌, ◌↔◌, refl, true, false, [], ◌∷◌, none, some}
use bbgo_sass.Prelude.Text.{codes, starts_with, same_text}
use bbgo_sass.Session.{
  Text, Cookie, nobody, user, Auth, is_protected_route, strip_locale, strip_locale_from,
  detect_locale, detect_locale_from, locale_prefixed_path, login_path, update_session, decide,
  is_auth_route, redirect_with_cookies, proxy,
}
use bbgo_sass.Session.Guard.{
  heard, target_of, update_session-protected, update_session-no_loop, proxy-protected,
}
use bbgo_sass.Session.Cookies.{HasCookies, expected, update_session-HasCookies}

abbrev token : Cookie
token = record {
  name = "sb-token";
  value = "x";
  options = record {
    secure = false;
    same_site = "none";
    max_age = 0;
    path = "/";
    http_only = true;
  };
}

abbrev signed_out : Auth
signed_out = record { get_user = nobody; refresh_throws = false; cookies_to_set = token ∷ [] }

abbrev signed_in : Auth
signed_in = record { get_user = user "u1"; refresh_throws = false; cookies_to_set = token ∷ [] }

abbrev bots_page : Text
bots_page = codes "/zh-TW/user/bots"

bots_page_protected : is_protected_route (strip_locale bots_page) ≡ true
unfolding is_protected_route strip_locale strip_locale_from same_text starts_with
bots_page_protected = refl

sends_to_login :
    target_of (update_session true bots_page [] signed_out) ≡ some (codes "/zh-TW/login")
unfolding update_session decide is_protected_route redirect_with_cookies locale_prefixed_path
    strip_locale strip_locale_from detect_locale detect_locale_from same_text starts_with
sends_to_login = refl

sends_home : target_of (update_session true (codes "/en/login") [] signed_in) ≡ some (codes "/user")
unfolding update_session decide is_protected_route is_auth_route redirect_with_cookies
    locale_prefixed_path strip_locale strip_locale_from detect_locale detect_locale_from same_text
    starts_with
sends_home = refl

update_session-protected_example :
    ((target_of (update_session true bots_page [] signed_out) ≡ none)
      ↔ (heard signed_out ≢ some false))
    × ((target_of (update_session true bots_page [] signed_out)
          ≡ some (locale_prefixed_path login_path (detect_locale bots_page)))
        ↔ (heard signed_out ≡ some false))
update_session-protected_example =
    update_session-protected true bots_page [] signed_out bots_page_protected

update_session-no_loop_example :
    target_of (update_session true (codes "/zh-TW/login") [] signed_out) ≡ none
update_session-no_loop_example =
    update_session-no_loop true bots_page [] [] signed_out signed_out (codes "/zh-TW/login")
      sends_to_login refl

proxy-protected_example :
    target_of (proxy true bots_page (λ p. []) signed_out)
    ≡ some (locale_prefixed_path login_path (detect_locale bots_page))
proxy-protected_example =
    proxy-protected true bots_page (λ p. []) signed_out bots_page_protected refl

update_session-HasCookies_example :
    HasCookies true "sb-token"
      (expected true "sb-token" (token ∷ []) [])
      (update_session true bots_page [] signed_out)
update_session-HasCookies_example =
    update_session-HasCookies true bots_page [] signed_out "sb-token" tt
