-- ===== src/Manager/Tests.antt =====
-- Runs of the client, and the theorems about it at inputs.
use bbgo_sass.Prelude.{ℕ, ◌≡◌, ◌≢◌, ◌↔◌, refl, true, false, [], ◌∷◌, none, some, arith}
use bbgo_sass.Prelude.Text.{codes, split, split_from, starts_with, same_text}
use bbgo_sass.Prelude.Dict.{set_entry}
use bbgo_sass.Prelude.Uri.{
  encode_uri_component, form_encode, percent_utf8, pair_text, query_text, decode_uri_component,
  decode_from, read_byte, read_point, read_more,
}
use bbgo_sass.Session.{strip_locale, strip_locale_from, is_protected_route, Auth, nobody}
use bbgo_sass.Manager.{
  Text, paper, Response, Browser, Outcome, returned, thrown, expired_login, is_ok, request,
  build_session_qs, session_params, mode_params,
}
use bbgo_sass.Manager.Users.{start_instance, stop_instance}
use bbgo_sass.Manager.Replies.{
  expired_browser, request-returned, ReachesLogin, expired_login-ReachesLogin,
}
use bbgo_sass.Manager.Paths.{ping, query_of, HasMode, query_of-HasMode}
use bbgo_sass.Manager.Segments.{segments, segments-start_instance}

abbrev bots_page : Text
bots_page = codes "/user/bots"

abbrev browser : Browser
browser = record { pathname = bots_page; auth_message = none; timers = [] }

abbrev expired : Response Text
expired = record { status = 401; status_text = codes "Unauthorized"; json = some [] }

abbrev error_of : Text → Text
error_of j = j

abbrev number_text : ℕ → Text
number_text n = codes "n"

-- Without a locale in the path the browser is sent to a path that is no login page.
goes_to : expired_login bots_page ≡ codes "/user/login"
unfolding split split_from
goes_to = refl

abbrev result : Browser × Outcome Text
result = request error_of number_text browser expired

request-returned_example :
    ((j : Text)
      → (result.1 ≡ returned j) ↔ ((is_ok expired.status ≡ true) × (expired.json ≡ some j)))
    × ((expired.status ≡ 401)
        → (result.0 ≡ expired_browser browser) × (result.1 ≡ thrown (codes "Session expired")))
    × (expired.status ≢ 401 → result.0 ≡ browser)
request-returned_example = request-returned error_of number_text browser expired

abbrev signed_out : Auth
signed_out = record { get_user = nobody; refresh_throws = false; cookies_to_set = [] }

bots_page_protected : is_protected_route (strip_locale bots_page) ≡ true
unfolding is_protected_route strip_locale strip_locale_from same_text starts_with
bots_page_protected = refl

expired_login-ReachesLogin_example :
    ReachesLogin true [] [] signed_out refl (expired_login bots_page)
expired_login-ReachesLogin_example =
    expired_login-ReachesLogin true [] [] signed_out refl bots_page bots_page_protected

query_of-HasMode_example :
    HasMode number_text
      (some paper)
      (query_of number_text (some paper) (ping (codes "u") (some (codes "i")))).params
query_of-HasMode_example =
    query_of-HasMode number_text (some paper) (ping (codes "u") (some (codes "i")))

segments-start_instance_example :
    (segments (start_instance (codes "u") (codes "a/b")).path
      ≡ []
        ∷ codes "users"
        ∷ codes "u"
        ∷ codes "instances"
        ∷ encode_uri_component (codes "a/b")
        ∷ codes "start"
        ∷ [])
    × (segments (stop_instance (codes "u") (codes "a/b")).path
        ≡ []
          ∷ codes "users"
          ∷ codes "u"
          ∷ codes "instances"
          ∷ encode_uri_component (codes "a/b")
          ∷ codes "stop"
          ∷ [])
segments-start_instance_example =
    segments-start_instance (codes "u") (codes "a/b") (ground arith, tt)

encoded : encode_uri_component (codes "a/é") ≡ codes "a%2F%C3%A9"
unfolding encode_uri_component percent_utf8
encoded = refl

decoded : decode_uri_component (codes "a%2F%C3%A9") ≡ some (codes "a/é")
unfolding decode_uri_component decode_from read_byte read_point read_more
decoded = refl

session_query : build_session_qs none (some (codes "a b&c")) ≡ codes "mode=live&instanceID=a+b%26c"
unfolding build_session_qs session_params mode_params query_text pair_text form_encode percent_utf8
    set_entry same_text
session_query = refl
