-- ===== src/Routes/Client.antt =====
-- The client of web/src/lib/bbgo/manager.ts over the proxy of web/src/app/api/manager/[...path]/route.ts.
use bbgo_sass.Prelude.{ℕ, ◌≡◌, ◌≢◌, [], Option, none, some, ap, All}
use bbgo_sass.Prelude.Uri.{decode_uri_component-plain}
use bbgo_sass.Session.{User}
use bbgo_sass.Manager.{Response, Browser, Outcome, request}
use bbgo_sass.Routes.{
  Text, Method, Forward, Request, Upstream, Reply, error_reply, data_reply, body_reply, no_reply,
  forward_decoded, forward_request, handle_request,
}

-- What `fetch` of the client sees of a reply of the proxy; a handler that throws gives 500 and no JSON.
abbrev pub response_of : {J : Type 0} → (Text → J) → Reply J → Response J
response_of error_json (error_reply text status) = record {
  status = status;
  status_text = [];
  json = some (error_json text);
}
response_of error_json (data_reply value status) = record {
  status = status;
  status_text = [];
  json = some value;
}
response_of error_json (body_reply text json headers status) = record {
  status = status;
  status_text = [];
  json = json;
}
response_of error_json no_reply = record { status = 500; status_text = []; json = none }

module _ (manager_url manager_token : Text) {J : Type 0} (error_json : Text → J)
    (error_of : J → Text) (number_text : ℕ → Text) (manager : Forward → Option (Upstream J)) where
  -- What `request` of the client comes to.
  abbrev pub client : Browser → User → Method → Request → Browser × Outcome J
  client b usr method r =
      request error_of number_text b
        (response_of error_json (handle_request manager_url manager_token manager usr method r).1)

-- A query without `%` is passed on as it is.
pub forward_request-plain :
    (manager_url manager_token : Text) (method : Method) (r : Request) (user_id : Text)
    → All (λ c. c ≢ b'%') r.search
    → forward_request manager_url manager_token method r user_id
      ≡ forward_decoded manager_url manager_token method r user_id (some r.search)
unfolding forward_request
forward_request-plain manager_url manager_token method r user_id h =
    ap (forward_decoded manager_url manager_token method r user_id)
      (decode_uri_component-plain r.search h)
