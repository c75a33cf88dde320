-- ===== src/Session/Locales.antt =====
-- Locales in paths.
use bbgo_sass.Prelude.{
  ◌≡◌, refl, List, [], ◌∷◌, ◌++◌, inl, inr, Option, none, some, arith, Any, Bool-cases, ◌||◌,
}
use bbgo_sass.Prelude.Text.{codes, starts_with, same_text}
use bbgo_sass.Session.{
  Text, login_path, user_path, locales, slash, strip_locale, strip_locale_from, detect_locale,
  detect_locale_from, locale_prefixed_path,
}

-- What a path can say of its locale.
abbrev pub IsDetected : Option Text → Type 0
IsDetected none = Unit
IsDetected (some l) = Any (λ k. l ≡ k) locales

detect_locale_from-Any :
    (ls : List Text) (path l : Text) → detect_locale_from ls path ≡ some l → Any (λ k. l ≡ k) ls
unfolding detect_locale_from
detect_locale_from-Any [] path l e = cc
detect_locale_from-Any (k ∷ ks) path l e =
    elim (Bool-cases (same_text path (slash k) || starts_with path (slash (k ++ codes "/")))) [
      | inl hit ↦ inl (ground arith)
      | inr miss ↦ inr (detect_locale_from-Any ks path l (ground arith))
    ]

pub IsDetected-detect_locale : (path : Text) → IsDetected (detect_locale path)
unfolding detect_locale
IsDetected-detect_locale path = go (detect_locale_from locales path) refl
  where
    go : (o : Option Text) → detect_locale_from locales path ≡ o → IsDetected o
    go none e = tt
    go (some l) e = detect_locale_from-Any locales path l e

-- The pages that `updateSession` redirects to.
pub data Target : Type 0 where
  login home : Target

abbrev pub target_path : Target → Text
target_path login = login_path
target_path home = user_path

-- The path of a page under a detected locale has that page as its path without the locale.
abbrev Strips : Target → Option Text → Type 0
Strips t o = strip_locale (locale_prefixed_path (target_path t) o) ≡ target_path t

pub strip-prefixed : (t : Target) (o : Option Text) → IsDetected o → Strips t o
unfolding strip_locale strip_locale_from locale_prefixed_path same_text starts_with
strip-prefixed login none d = refl
strip-prefixed login (some l) (inl e) = rw e
strip-prefixed login (some l) (inr (inl e)) = rw e
strip-prefixed login (some l) (inr (inr (inl e))) = rw e
strip-prefixed login (some l) (inr (inr (inr (inl e)))) = rw e
strip-prefixed login (some l) (inr (inr (inr (inr (inl e))))) = rw e
strip-prefixed login (some l) (inr (inr (inr (inr (inr e))))) = elim e [ ]
strip-prefixed home none d = refl
strip-prefixed home (some l) (inl e) = rw e
strip-prefixed home (some l) (inr (inl e)) = rw e
strip-prefixed home (some l) (inr (inr (inl e))) = rw e
strip-prefixed home (some l) (inr (inr (inr (inl e)))) = rw e
strip-prefixed home (some l) (inr (inr (inr (inr (inl e))))) = rw e
strip-prefixed home (some l) (inr (inr (inr (inr (inr e))))) = elim e [ ]
