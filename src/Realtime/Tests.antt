-- ===== src/Realtime/Tests.antt =====
-- A burst of two inserts.
use bbgo_sass.Prelude.{◌≡◌, refl, true, false, List, [], ◌∷◌, All, arith}
use bbgo_sass.Prelude.Text.{codes}
use bbgo_sass.Realtime.{
  Text, Subscription, subscribe, flush, schedule_invalidate, inserted, fired, Reaches, here, step,
  is_uuid, hex_digits, dash, digits_then_dash, ends_after,
}
use bbgo_sass.Realtime.Debounce.{IsAnswered, IsSpaced, Reaches-IsAnswered}

takes_uuid : is_uuid (codes "123e4567-E89b-12d3-a456-426614174000") ≡ true
unfolding is_uuid ends_after digits_then_dash dash hex_digits
takes_uuid = refl

refuses_short : is_uuid (codes "123e4567-e89b-12d3-a456-42661417400") ≡ false
unfolding is_uuid ends_after digits_then_dash dash hex_digits
refuses_short = refl

abbrev keys : List Text
keys = codes "trades" ∷ []

abbrev after_burst : Subscription
after_burst = flush keys 520 (schedule_invalidate 30 (schedule_invalidate 20 (subscribe 10)))

burst : Reaches keys (subscribe 10) after_burst
unfolding schedule_invalidate
burst =
    step (step (step here (inserted 20 refl (omega arith))) (inserted 30 refl (omega arith)))
      (fired 520 520 refl (omega arith) (omega arith))

Reaches-IsAnswered_example :
    All (IsAnswered after_burst) after_burst.inserts × IsSpaced after_burst.invalidated
Reaches-IsAnswered_example = Reaches-IsAnswered keys 10 after_burst burst
