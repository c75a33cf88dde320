-- ===== src/Realtime/Debounce.antt =====
-- The timer of a subscription.
use bbgo_sass.Prelude.{
  subst, ℕ, ◌+◌, ◌≤◌, ◌≡◌, ◌⊎◌, refl, false, List, [], ◌∷◌, Option, none, some, arith, inl, inr,
  All, All-map, Any,
}
use bbgo_sass.Realtime.{
  Text, invalidate_debounce_ms, Subscription, subscribe, flush, schedule_invalidate, cleanup, Step,
  inserted, fired, Reaches, here, step,
}

-- The timer is set to come no later than the delay after the time `x`.
abbrev pub IsDueAfter : Option ℕ → ℕ → Type 0
IsDueAfter none x = ⊥
IsDueAfter (some due) x = due ≤ x + invalidate_debounce_ms

-- Some invalidation came no earlier than the insert, or the timer is set for it.
abbrev pub IsAnswered : Subscription → ℕ → Type 0
IsAnswered s x = Any (λ e. x ≤ e.0) s.invalidated ⊎ IsDueAfter s.pending_timer x

-- Each invalidation came at least the delay after the one before it.
abbrev pub IsSpaced : List (ℕ × List Text) → Type 0
IsSpaced [] = Unit
IsSpaced (e ∷ []) = Unit
IsSpaced (e ∷ f ∷ es) = (f.0 + invalidate_debounce_ms ≤ e.0) × IsSpaced (f ∷ es)

-- The timer, if set, fires at least the delay after the last invalidation.
abbrev IsLater : Option ℕ → List (ℕ × List Text) → Type 0
IsLater none es = Unit
IsLater (some due) [] = Unit
IsLater (some due) (e ∷ es) = e.0 + invalidate_debounce_ms ≤ due

abbrev IsPast : ℕ → List (ℕ × List Text) → Type 0
IsPast now [] = Unit
IsPast now (e ∷ es) = e.0 ≤ now

-- The timer, if set, fires within the delay from now.
abbrev IsSoon : Option ℕ → ℕ → Type 0
IsSoon none now = Unit
IsSoon (some due) now = due ≤ now + invalidate_debounce_ms

record Kept (s : Subscription) : Type 0 where
  answered : All (IsAnswered s) s.inserts
  inserts_past : All (λ x. x ≤ s.now) s.inserts
  spaced : IsSpaced s.invalidated
  later : IsLater s.pending_timer s.invalidated
  past : IsPast s.now s.invalidated
  soon : IsSoon s.pending_timer s.now

module _ (keys : List Text) where
  IsSpaced-cons :
      (t due : ℕ) (es : List (ℕ × List Text))
      → due ≤ t
      → IsLater (some due) es
      → IsSpaced es
      → IsSpaced ((t, keys) ∷ es)
  IsSpaced-cons t due [] h l s = tt
  IsSpaced-cons t due (e ∷ es) h l s = (omega arith, s)

  flush-Kept :
      (t due : ℕ) (s : Subscription)
      → s.pending_timer ≡ some due
      → due ≤ t
      → s.now ≤ t
      → Kept s
      → Kept (flush keys t s)
  unfolding flush
  flush-Kept t due s e h n k = record {
    answered = All-map (λ x p. inl (inl (omega arith))) s.inserts k.inserts_past;
    inserts_past = All-map (λ x p. omega arith) s.inserts k.inserts_past;
    spaced =
        IsSpaced-cons t due s.invalidated h (subst (λ o. IsLater o s.invalidated) e k.later)
          k.spaced;
    later = tt;
    past = omega arith;
    soon = tt;
  }

IsLater-new :
    (t : ℕ) (now : ℕ) (es : List (ℕ × List Text))
    → now ≤ t
    → IsPast now es
    → IsLater (some (t + invalidate_debounce_ms)) es
IsLater-new t now [] h p = tt
IsLater-new t now (e ∷ es) h p = omega arith

IsPast-later : (now t : ℕ) (es : List (ℕ × List Text)) → now ≤ t → IsPast now es → IsPast t es
IsPast-later now t [] h p = tt
IsPast-later now t (e ∷ es) h p = omega arith

IsSoon-later : (o : Option ℕ) (now t : ℕ) → now ≤ t → IsSoon o now → IsSoon o t
IsSoon-later none now t h p = tt
IsSoon-later (some due) now t h p = omega arith

-- A timer that is set answers the new insert too.
due_of_soon : (o : Option ℕ) (due now : ℕ) → o ≡ some due → IsSoon o now → IsDueAfter o now
due_of_soon none due now e p = absurd (ground arith)
due_of_soon (some d) due now e p = p

schedule-Kept : (t : ℕ) (s : Subscription) → s.now ≤ t → Kept s → Kept (schedule_invalidate t s)
unfolding schedule_invalidate
schedule-Kept t s n k = go s.pending_timer refl
  where
    go :
        (o : Option ℕ)
        → s.pending_timer ≡ o
        → Kept (elim o as (λ x. Subscription) [
          | some due ↦ record s { now = t; inserts = t ∷ s.inserts }
          | none ↦ record s {
            pending_timer = some (t + invalidate_debounce_ms);
            now = t;
            inserts = t ∷ s.inserts;
          }
        ])
    go none e = record {
      answered = (
        inr (omega arith),
        All-map
            (λ x p. elim p [
              | inl done ↦ inl done
              | inr due ↦ absurd (subst (λ o. IsDueAfter o x) e due)
            ])
            s.inserts k.answered,
      );
      inserts_past = (omega arith, All-map (λ x p. omega arith) s.inserts k.inserts_past);
      spaced = k.spaced;
      later = IsLater-new t s.now s.invalidated n k.past;
      past = IsPast-later s.now t s.invalidated n k.past;
      soon = omega arith;
    }
    go (some due) e = record {
      answered = (
        inr (due_of_soon s.pending_timer due t e (IsSoon-later s.pending_timer s.now t n k.soon)),
        k.answered,
      );
      inserts_past = (omega arith, All-map (λ x p. omega arith) s.inserts k.inserts_past);
      spaced = k.spaced;
      later = k.later;
      past = IsPast-later s.now t s.invalidated n k.past;
      soon = IsSoon-later s.pending_timer s.now t n k.soon;
    }

module _ (keys : List Text) where
  Reaches-Kept : {s u : Subscription} → Kept s → Reaches keys s u → Kept u
  Reaches-Kept k here = k
  Reaches-Kept k (step r (inserted t o n)) = schedule-Kept t _ n (Reaches-Kept k r)
  Reaches-Kept k (step r (fired t due e h n)) = flush-Kept keys t due _ e h n (Reaches-Kept k r)

-- Bursts are joined and no insert is lost: in any state that a new subscription can reach while it is
-- open, for each insert either the keys were invalidated at its time or later, or the timer is set to do
-- so at most the delay after it; and two invalidations are at least the delay apart.
pub Reaches-IsAnswered :
    (keys : List Text) (now : ℕ) (s : Subscription)
    → Reaches keys (subscribe now) s
    → All (IsAnswered s) s.inserts × IsSpaced s.invalidated
Reaches-IsAnswered keys now s r =
    let k =
      Reaches-Kept keys
        (record { answered = tt; inserts_past = tt; spaced = tt; later = tt; past = tt; soon = tt })
        r in
    (k.answered, k.spaced)

-- After the effect's cleanup nothing happens any more: no insert is taken, and no timer fires.
pub cleanup-no-Step : (keys : List Text) (s u : Subscription) → ¬ Step keys (cleanup s) u
unfolding cleanup
cleanup-no-Step keys s u h = no_step refl refl h
  where
    no_step : {c v : Subscription} → c.is_open ≡ false → c.pending_timer ≡ none → Step keys c v → ⊥
    no_step o e (inserted t p n) = ground arith
    no_step o e (fired t due p h n) = ground arith
