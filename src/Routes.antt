-- ===== src/Routes.antt =====
-- The route handlers of the front end's server: web/src/app/api/manager/[...path]/route.ts, which passes
-- requests on to the manager, and web/src/app/api/ws-url/route.ts; the sign-in forms are in Actions. What
-- the authentication service and the manager answer are arguments.
pub mod Client
pub mod Actions
mod Tests
use bbgo_sass.Prelude.{
  ℕ, Bool, true, false, not, ◌&&◌, ◌||◌, List, [], ◌∷◌, ◌++◌, Option, none, some, if◌then◌else◌,
  ◌==◌, take,
}
use bbgo_sass.Prelude.Text.{codes, starts_with}
use bbgo_sass.Prelude.Uri.{decode_uri_component, encode_uri_component}
use bbgo_sass.Session.{User, threw, nobody, user}
use bbgo_sass.Manager.{is_ok}

abbrev pub Text : Type 0
Text = List ℕ

pub data Method : Type 0 where
  get post delete put patch : Method

-- What the manager is sent.
pub record Forward : Type 0 where
  pub method : Method
  pub url : Text
  pub user_id : Text
  pub manager_token : Text
  pub body : Option Text

-- `path.join('/')`
unfoldable pub join_path : List Text → Text
join_path [] = []
join_path (p ∷ []) = p
join_path (p ∷ q ∷ ps) = p ++ b'/' ∷ join_path (q ∷ ps)

pub record Request : Type 0 where
  pub search : Text
  pub path : List Text
  pub text : Text

abbrev pub has_body : Method → Bool
has_body get = false
has_body _ = true

-- `includes('application/json')`
unfoldable pub includes_text : Text → Text → Bool
includes_text [] part = starts_with [] part
includes_text (c ∷ s) part = starts_with (c ∷ s) part || includes_text s part

-- The manager's response: `json` is what JSON.parse gives of its text, if it is JSON. Of its headers the
-- three are kept that may be passed on.
pub record Upstream (J : Type 0) : Type 0 where
  pub status : ℕ
  pub content_type : Option Text
  pub text : Text
  pub json : Option J
  pub content_length : Option Text
  pub content_disposition : Option Text
  pub cache_control : Option Text

-- The reply of the proxy: an error object, the data, or the body as it came with some headers. A handler
-- that throws has none of its own.
pub data Reply (J : Type 0) : Type 0 where
  error_reply : Text → ℕ → Reply J
  data_reply : J → ℕ → Reply J
  body_reply : Text → Option J → List (Text × Text) → ℕ → Reply J
  no_reply : Reply J

abbrev pub header_if : Text → Option Text → List (Text × Text) → List (Text × Text)
header_if key none hs = hs
header_if key (some []) hs = hs
header_if key (some (c ∷ v)) hs = hs ++ ((key, c ∷ v) ∷ [])

-- `res.headers.get('content-type') || ''`
abbrev pub or_blank : Option Text → Text
or_blank none = []
or_blank (some t) = t

module _ (manager_url manager_token : Text) where
  -- `forwardRequest`, up to `fetch`, for the decoded query; `none` where `decodeURIComponent` throws.
  unfoldable pub forward_decoded :
      Method → Request → (user_id : Text) → Option Text → Option Forward
  forward_decoded method request user_id none = none
  forward_decoded method request user_id (some search) = some (record {
    method = method;
    url = manager_url ++ codes "/api/" ++ join_path request.path ++ search;
    user_id = user_id;
    manager_token = manager_token;
    body = if has_body method then some request.text else none;
  })

  unfoldable pub forward_request : Method → Request → (user_id : Text) → Option Forward
  forward_request method request user_id =
      forward_decoded method request user_id (decode_uri_component request.search)

  module _ {J : Type 0} where
    unfoldable pub json_reply : Upstream J → Reply J
    json_reply u = elim u.json [
      | none ↦ error_reply (codes "Manager returned invalid JSON: " ++ take 200 u.text) u.status
      | some value ↦ data_reply value u.status
    ]

    -- The end of `handleRequest`.
    unfoldable pub reply_of : Upstream J → Reply J
    reply_of u =
        let content_type = or_blank u.content_type in
        if includes_text content_type (codes "application/json")
        then json_reply u
        else body_reply u.text u.json
            (header_if (codes "Cache-Control") u.cache_control (
              header_if (codes "Content-Disposition") u.content_disposition (
                header_if (codes "Content-Length") u.content_length
                  ((codes "Content-Type", content_type) ∷ []))))
            u.status

    -- The call of the manager, and the reply to what it answers, if `fetch` does not throw.
    unfoldable pub pass_on :
        (Forward → Option (Upstream J)) → Option Forward → List Forward × Reply J
    pass_on manager none = ([], no_reply)
    pass_on manager (some f) = (f ∷ [], elim (manager f) [ none ↦ no_reply | some u ↦ reply_of u ])

    -- `handleRequest`, with the calls that it makes of the manager. The exported handlers are this function
    -- for each method.
    unfoldable pub handle_request :
        (Forward → Option (Upstream J)) → User → Method → Request → List Forward × Reply J
    handle_request manager threw method request =
        ([], error_reply (codes "Auth service unavailable") 503)
    handle_request manager nobody method request = ([], error_reply (codes "Unauthorized") 401)
    handle_request manager (user id) method request =
        pass_on manager (forward_request method request (codes id))

-- `httpBase`: without a slash at the end.
unfoldable pub without_slash : Text → Text
without_slash [] = []
without_slash (c ∷ s) = elim s [
  | [] ↦ if c == b'/' then [] else c ∷ []
  | d ∷ r ↦ c ∷ without_slash s
]

-- `httpBase.replace(/^http/, 'ws')`
unfoldable pub ws_scheme : Text → Text
ws_scheme (a ∷ b ∷ c ∷ d ∷ rest) =
    if a == b'h' && b == b't' && c == b't' && d == b'p'
    then b'w' ∷ b's' ∷ rest
    else a ∷ b ∷ c ∷ d ∷ rest
ws_scheme s = s

-- `wsBase`
abbrev pub ws_base : (api_url ws_url : Text) → Text
ws_base api_url [] = ws_scheme (without_slash api_url)
ws_base api_url (c ∷ ws_url) = c ∷ ws_url

abbrev pub mode_param : Option Text → Text
mode_param none = []
mode_param (some []) = []
mode_param (some (c ∷ mode)) = codes "&mode=" ++ encode_uri_component (c ∷ mode)

-- The reply of ws-url: an error with its status, or the address.
pub data WsReply : Type 0 where
  ws_error : Text → ℕ → WsReply
  ws_address : Text → WsReply
  ws_throws : WsReply

-- The manager's reply to the request for a ticket.
pub record TicketReply : Type 0 where
  pub status : ℕ
  pub ticket : Option Text

unfoldable pub ticket_reply : (api_url ws_url : Text) → (mode : Option Text) → TicketReply → WsReply
ticket_reply api_url ws_url mode r =
    let found = elim r.ticket as (λ t. WsReply) [
      | none ↦ ws_error (codes "No ticket") 502
      | some t ↦ elim t as (λ x. WsReply) [
        | [] ↦ ws_error (codes "No ticket") 502
        | c ∷ s ↦ ws_address (
            ws_base api_url ws_url
            ++ codes "/api/ws?ticket="
            ++ encode_uri_component t
            ++ mode_param mode)
      ]
    ] in
    if is_ok r.status then found else ws_error (codes "Failed to get WS ticket") 502

-- `GET` of ws-url.
unfoldable pub get_ws_url :
    (api_url ws_url : Text)
    → User
    → (mode : Option Text) → ((user_id : Text) → TicketReply)
    → WsReply
get_ws_url api_url ws_url threw mode manager = ws_throws
get_ws_url api_url ws_url nobody mode manager = ws_error (codes "Unauthorized") 401
get_ws_url api_url ws_url (user id) mode manager =
    ticket_reply api_url ws_url mode (manager (codes id))
