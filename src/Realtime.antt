-- ===== src/Realtime.antt =====
-- `useRealtimeTable` of web/src/lib/supabase/use-realtime.ts: the subscription to the inserts of a table,
-- and the timer that joins bursts of them. The clock is in milliseconds. The channel and the query client
-- are outside the repository: what they are told is a log.
pub mod Debounce
mod Tests
use bbgo_sass.Prelude.{
  ℕ, zero, suc, ◌+◌, ◌≤◌, ◌≡◌, Bool, true, false, not, ◌&&◌, ◌||◌, List, [], ◌∷◌, ◌++◌, Option,
  none, some, leb, ◌==◌, if◌then◌else◌,
}
use bbgo_sass.Prelude.Text.{codes}

abbrev pub Text : Type 0
Text = List ℕ

abbrev pub invalidate_debounce_ms : ℕ
invalidate_debounce_ms = 500

-- `[0-9a-f]` without regard to case.
abbrev pub is_hex : ℕ → Bool
is_hex c = leb b'0' c && leb c b'9' || leb b'a' c && leb c b'f' || leb b'A' c && leb c b'F'

-- `n` hexadecimal digits, and what follows them.
unfoldable pub hex_digits : ℕ → Text → Option Text
hex_digits zero s = some s
hex_digits (suc n) [] = none
hex_digits (suc n) (c ∷ s) = let rest = hex_digits n s in if is_hex c then rest else none

unfoldable pub dash : Option Text → Option Text
dash none = none
dash (some []) = none
dash (some (c ∷ s)) = if c == b'-' then some s else none

unfoldable pub digits_then_dash : ℕ → Option Text → Option Text
digits_then_dash n none = none
digits_then_dash n (some s) = dash (hex_digits n s)

unfoldable pub ends_after : ℕ → Option Text → Bool
ends_after n none = false
ends_after n (some s) = elim (hex_digits n s) [
  | none ↦ false
  | some rest ↦ elim rest [ [] ↦ true | c ∷ _ ↦ false ]
]

-- `UUID_RE.test`: groups of 8, 4, 4, 4 and 12 digits.
unfoldable pub is_uuid : Text → Bool
is_uuid s =
    ends_after 12
      (digits_then_dash 4 (digits_then_dash 4 (digits_then_dash 4 (digits_then_dash 8 (some s)))))

-- `enabled`, for `opts?.enabled`.
unfoldable pub is_enabled : Option Bool → Option Text → Bool
is_enabled (some false) user_id = false
is_enabled opt none = false
is_enabled opt (some user_id) = is_uuid user_id

-- The variables of one effect: the timer, as the time from which it fires, and the log of what was
-- invalidated, the newest first. The clock and the times of the inserts are kept to speak about them.
pub record Subscription : Type 0 where
  pub pending_timer : Option ℕ
  pub invalidated : List (ℕ × List Text)
  pub is_open : Bool
  pub now : ℕ
  pub inserts : List ℕ

abbrev pub subscribe : ℕ → Subscription
subscribe now = record {
  pending_timer = none;
  invalidated = [];
  is_open = true;
  now = now;
  inserts = [];
}

-- `flush` at the time `t`.
unfoldable pub flush : List Text → ℕ → Subscription → Subscription
flush keys t s = record s { pending_timer = none; invalidated = (t, keys) ∷ s.invalidated; now = t }

-- `scheduleInvalidate` at the time `t`.
unfoldable pub schedule_invalidate : ℕ → Subscription → Subscription
schedule_invalidate t s = elim s.pending_timer [
  | some due ↦ record s { now = t; inserts = t ∷ s.inserts }
  | none ↦ record s {
    pending_timer = some (t + invalidate_debounce_ms);
    now = t;
    inserts = t ∷ s.inserts;
  }
]

-- The function that the effect returns.
unfoldable pub cleanup : Subscription → Subscription
cleanup s = record s { pending_timer = none; is_open = false }

-- What can happen, in time: an insert reaches an open channel, a timer fires at its time or later.
pub data Step (keys : List Text) (s : Subscription) : Subscription → Type 0 where
  inserted : (t : ℕ) → s.is_open ≡ true → s.now ≤ t → Step keys s (schedule_invalidate t s)
  fired :
      (t due : ℕ) → s.pending_timer ≡ some due → due ≤ t → s.now ≤ t → Step keys s (flush keys t s)

pub data Reaches (keys : List Text) : Subscription → Subscription → Type 0 where
  here : {s : Subscription} → Reaches keys s s
  step : {s t u : Subscription} → Reaches keys s t → Step keys t u → Reaches keys s u
