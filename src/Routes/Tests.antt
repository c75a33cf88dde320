-- ===== src/Routes/Tests.antt =====
-- Runs of the handlers, and the theorem about the proxy at an input.
use bbgo_sass.Prelude.{◌≡◌, refl, [], ◌∷◌, Option, none, some}
use bbgo_sass.Prelude.Text.{codes, same_text, starts_with}
use bbgo_sass.Prelude.Uri.{
  decode_uri_component, decode_from, read_byte, read_point, read_more, encode_uri_component,
  percent_utf8,
}
use bbgo_sass.Session.{user}
use bbgo_sass.Manager.{Browser, returned, request}
use bbgo_sass.Routes.{
  Text, get, Forward, Request, Upstream, forward_decoded, forward_request, json_reply, reply_of,
  pass_on, handle_request, join_path, includes_text, ws_address, ticket_reply, get_ws_url,
  without_slash, ws_scheme,
}
use bbgo_sass.Routes.Client.{client}
use bbgo_sass.Routes.Actions.{
  redirected, error_key, rejects, accepts, sign_in_action, sign_up_action, sign_out_action,
  reset_password_action, confirm, success_key,
}

abbrev manager_url : Text
manager_url = codes "http://m"

abbrev ping : Request
ping = record {
  search = codes "?instanceID=a%26mode%3Dpaper";
  path = codes "users" ∷ codes "u1" ∷ [];
  text = [];
}

-- The query is decoded before it is passed on: the value of one parameter has become two parameters.
injected :
    forward_request manager_url (codes "t") get ping (codes "u1")
    ≡ some (record {
      method = get;
      url = codes "http://m/api/users/u1?instanceID=a&mode=paper";
      user_id = codes "u1";
      manager_token = codes "t";
      body = none;
    })
unfolding forward_request forward_decoded decode_uri_component decode_from read_byte read_point
    read_more join_path
injected = refl

-- A manager that answers 200 with a text that is no JSON.
abbrev garbled : Upstream Text
garbled = record {
  status = 200;
  content_type = some (codes "application/json");
  text = codes "<";
  json = none;
  content_length = none;
  content_disposition = none;
  cache_control = none;
}

abbrev manager : Forward → Option (Upstream Text)
manager f = some garbled

abbrev browser : Browser
browser = record { pathname = codes "/user"; auth_message = none; timers = [] }

abbrev same : Text → Text
same t = t

-- The proxy's error object for it reaches the caller of the client as data.
error_as_data :
    (client manager_url (codes "t") same same (λ n. []) manager browser (user "u1") get ping).1
    ≡ returned (codes "Manager returned invalid JSON: <")
unfolding request handle_request pass_on reply_of json_reply includes_text starts_with
    forward_request forward_decoded decode_uri_component decode_from read_byte read_point read_more
error_as_data = refl

ws_url_run :
    get_ws_url
      (codes "https://m/")
      []
      (user "u1")
      (some (codes "paper"))
      (λ id. record { status = 200; ticket = some (codes "a b") })
    ≡ ws_address (codes "wss://m/api/ws?ticket=a%20b&mode=paper")
unfolding get_ws_url ticket_reply without_slash ws_scheme encode_uri_component percent_utf8
ws_url_run = refl

sign_in_run : sign_in_action (some (codes "a")) (some []) accepts ≡ error_key (codes "required")
unfolding sign_in_action
sign_in_run = refl

-- A link that fails leads to a path that is none of the application's login page.
confirm_run :
    confirm (some (codes "h")) (some (codes "email")) none (rejects [])
    ≡ redirected (codes "/auth/login?error=auth")
unfolding confirm
confirm_run = refl

sign_up_run :
    sign_up_action (some (codes "a")) (some (codes "b")) (some (codes "c")) accepts
    ≡ error_key (codes "passwordsDontMatch")
unfolding sign_up_action same_text
sign_up_run = refl

sign_out_run : sign_out_action (rejects []) ≡ redirected (codes "/login")
unfolding sign_out_action
sign_out_run = refl

reset_run : reset_password_action (some (codes "a")) accepts ≡ success_key (codes "resetLinkSent")
unfolding reset_password_action
reset_run = refl
