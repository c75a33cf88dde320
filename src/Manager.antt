-- ===== src/Manager.antt =====
-- The client of the manager service, web/src/lib/bbgo/manager.ts: the requests that its functions make
-- (in the children) and what `request` does with a response. Texts are lists of code points; the JSON of
-- a body is a text and that of a response a value of any type, with its `error` as an argument.
pub mod Users
pub mod Bots
pub mod Replies
pub mod Paths
pub mod Segments
mod Tests
use bbgo_sass.Prelude.{
  ℕ, ◌≡◌, Bool, true, false, ◌&&◌, List, [], ◌∷◌, ◌++◌, Option, none, some, leb, ltb, ◌==◌,
  if◌then◌else◌, get_or,
}
use bbgo_sass.Prelude.Text.{codes, split}
use bbgo_sass.Prelude.Uri.{Params, set_param, set_if, query_text}

abbrev pub Text : Type 0
Text = List ℕ

pub data Mode : Type 0 where
  live paper : Mode

abbrev pub mode_text : Mode → Text
mode_text live = codes "live"
mode_text paper = codes "paper"

-- `mode ?? 'live'`
abbrev pub mode_or_live : Option Mode → Mode
mode_or_live none = live
mode_or_live (some m) = m

-- `new URLSearchParams()` with `mode` set.
unfoldable pub mode_params : Option Mode → Params
mode_params mode = set_param (codes "mode") (mode_text (mode_or_live mode)) []

-- `buildSessionQS`, before `toString`.
unfoldable pub session_params : Option Mode → Option Text → Params
session_params mode instance_id = set_if (codes "instanceID") instance_id (mode_params mode)

unfoldable pub build_session_qs : Option Mode → Option Text → Text
build_session_qs mode instance_id = query_text (session_params mode instance_id)

pub data Method : Type 0 where
  get post patch delete : Method

-- What `request` is called with. The body is what JSON.stringify gives.
pub record Request : Type 0 where
  pub method : Method
  pub path : Text
  pub body : Option Text

abbrev pub get_request : Text → Request
get_request path = record { method = get; path = path; body = none }

-- A response: `json` is none where `res.json()` rejects.
pub record Response (J : Type 0) : Type 0 where
  pub status : ℕ
  pub status_text : Text
  pub json : Option J

-- `res.ok`
abbrev pub is_ok : ℕ → Bool
is_ok status = leb 200 status && ltb status 300

-- The parts of the browser that `request` touches: the item `bbgo-auth-message` of the session's storage,
-- and the pages that timers will go to.
pub record Browser : Type 0 where
  pub pathname : Text
  pub auth_message : Option Text
  pub timers : List (ℕ × Text)

-- How the promise ends: with a value, with an error of the code, or with the rejection of `res.json()`.
pub data Outcome (J : Type 0) : Type 0 where
  returned : J → Outcome J
  thrown : Text → Outcome J
  invalid_json : Outcome J

-- `/${locale}/login`
abbrev pub expired_login : Text → Text
expired_login pathname = codes "/" ++ get_or (split b'/' pathname) 1 [] ++ codes "/login"

unfoldable pub expire : Browser → Browser
expire b = record b {
  auth_message = some (codes "session_expired");
  timers = b.timers ++ ((5000, expired_login b.pathname) ∷ []);
}

abbrev pub unavailable : Text
unavailable = codes "Auth service unavailable — please check your network and try again"

module _ {J : Type 0} (error_of : J → Text) (number_text : ℕ → Text) where
  -- `body.error || ...`, where the body is `{ error: res.statusText }` if there is no JSON.
  unfoldable pub error_text : ℕ → Text → Text
  error_text status [] = codes "Manager API error: " ++ number_text status
  error_text status (c ∷ text) = c ∷ text

  unfoldable pub body_error : Response J → Text
  body_error r = elim r.json [ none ↦ r.status_text | some body ↦ error_of body ]

  -- `request`, once `fetch` has answered.
  unfoldable pub request : Browser → Response J → Browser × Outcome J
  request b r =
      if r.status == 401
      then (expire b, thrown (codes "Session expired"))
      else if r.status == 503
      then (b, thrown unavailable)
      else if is_ok r.status
      then (b, elim r.json [ none ↦ invalid_json | some body ↦ returned body ])
      else (b, thrown (error_text r.status (body_error r)))
