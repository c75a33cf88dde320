-- ===== src/Routes/Actions.antt =====
-- The forms of web/src/actions/auth.ts and the link of web/src/app/[locale]/auth/confirm/route.ts. What
-- the authentication service answers is an argument.
use bbgo_sass.Prelude.{
  Bool, true, false, not, ◌||◌, [], ◌∷◌, ◌++◌, Option, none, some, if◌then◌else◌,
}
use bbgo_sass.Prelude.Text.{codes, same_text}
use bbgo_sass.Session.{login_path, user_path}
use bbgo_sass.Routes.{Text}

-- The service accepts, names an error, or cannot be reached.
pub data Answer : Type 0 where
  accepts : Answer
  rejects : Text → Answer
  unreachable : Answer

-- The message that a form gets back, by its key or as the service words it, or a redirection.
pub data ActionResult : Type 0 where
  error_key : Text → ActionResult
  error_message : Text → ActionResult
  success_key : Text → ActionResult
  redirected : Text → ActionResult
  action_throws : ActionResult

-- `!text`, for a field that may be missing.
abbrev pub is_missing : Option Text → Bool
is_missing none = true
is_missing (some []) = true
is_missing (some (c ∷ s)) = false

-- The `try` of an action, and what follows it.
abbrev pub after : ActionResult → Answer → ActionResult
after done accepts = done
after done (rejects message) = error_message message
after done unreachable = error_key (codes "connectionError")

unfoldable pub sign_in_action : (email password : Option Text) → Answer → ActionResult
sign_in_action email password answer =
    if is_missing email || is_missing password
    then error_key (codes "required")
    else after (redirected user_path) answer

-- `signOutAction`, which ignores an error that the service names.
unfoldable pub sign_out_action : Answer → ActionResult
sign_out_action accepts = redirected login_path
sign_out_action (rejects message) = redirected login_path
sign_out_action unreachable = action_throws

abbrev pub same_field : Option Text → Option Text → Bool
same_field none none = true
same_field (some s) (some t) = same_text s t
same_field _ _ = false

unfoldable pub sign_up_action :
    (email password confirm_password : Option Text) → Answer → ActionResult
sign_up_action email password confirm_password answer =
    if is_missing email || is_missing password || is_missing confirm_password
    then error_key (codes "allFieldsRequired")
    else if not (same_field password confirm_password)
    then error_key (codes "passwordsDontMatch")
    else after (redirected (login_path ++ codes "?signup=1")) answer

unfoldable pub reset_password_action : (email : Option Text) → Answer → ActionResult
reset_password_action email answer =
    if is_missing email
    then error_key (codes "emailRequired")
    else after (success_key (codes "resetLinkSent")) answer

abbrev pub confirm_failed : Text
confirm_failed = codes "/auth/login?error=auth"

-- `searchParams.get('next') ?? '/'`
abbrev pub next_or_root : Option Text → Text
next_or_root none = codes "/"
next_or_root (some next) = next

-- `GET` of auth/confirm. `verifyOtp` that cannot be reached throws.
unfoldable pub confirm : (token_hash type next : Option Text) → Answer → ActionResult
confirm token_hash type next answer =
    if is_missing token_hash || is_missing type
    then redirected confirm_failed
    else elim answer as (λ a. ActionResult) [
      | accepts ↦ redirected (next_or_root next)
      | rejects message ↦ redirected confirm_failed
      | unreachable ↦ action_throws
    ]
