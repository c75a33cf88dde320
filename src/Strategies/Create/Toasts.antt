-- ===== src/Strategies/Create/Toasts.antt =====
-- The messages of web/src/components/user/CreateStrategyDialog.tsx after its request.
use bbgo_sass.Prelude.{Bool, true, false, List, [], ◌∷◌, ◌++◌, if◌then◌else◌}
use bbgo_sass.Strategies.{Text}

pub record Warning : Type 0 where
  pub message : Text
  pub critical : Bool

pub data Toast : Type 0 where
  error_toast warning_toast : Text → Toast

-- `join('\n')`
unfoldable pub join_lines : List Text → Text
join_lines [] = []
join_lines (t ∷ []) = t
join_lines (t ∷ u ∷ ts) = t ++ 10 ∷ join_lines (u ∷ ts)

-- The messages of the warnings that are critical, or of the others.
unfoldable pub messages_of : Bool → List Warning → List Text
messages_of critical [] = []
messages_of critical (w ∷ ws) =
    let rest = messages_of critical ws in
    if w.critical
    then (if critical then w.message ∷ rest else rest)
    else if critical
    then rest
    else w.message ∷ rest

abbrev pub toast_if : (Text → Toast) → List Text → List Toast
toast_if toast [] = []
toast_if toast (t ∷ ts) = toast (join_lines (t ∷ ts)) ∷ []

-- `onSuccess`, before it closes the dialog.
unfoldable pub on_success : List Warning → List Toast
on_success warnings =
    toast_if error_toast (messages_of true warnings)
    ++ toast_if warning_toast (messages_of false warnings)

-- `onError`
abbrev pub on_error : Text → List Toast
on_error message = error_toast message ∷ []
