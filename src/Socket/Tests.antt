-- ===== src/Socket/Tests.antt =====
-- Runs of the connection, and the theorem about it at an input.
use bbgo_sass.Prelude.{◌≡◌, refl, true, false, [], ◌∷◌}
use bbgo_sass.Socket.{
  Config, State, has, drop_one, connect, start_timer, given_address, request_failed, refused,
  on_close, timer_fires, cleanup, rerun, mount, gives_address, closes, here, step,
}
use bbgo_sass.Socket.Reconnect.{is_active, CanConnect, Reaches-CanConnect}

abbrev config : Config
config = record { enabled = true; has_user = true }

abbrev first : State
first = given_address [] (mount config)

-- When the options change, the old socket's `onclose` drops the new one from `wsRef` and starts a timer,
-- after which two sockets are open, of which the clean-up would close one.
abbrev changed : State
changed = on_close 0 (given_address [] (rerun config first))

two_sockets : (given_address [] (timer_fires 0 changed)).sockets ≡ 2 ∷ 1 ∷ []
unfolding mount rerun cleanup connect given_address on_close start_timer timer_fires drop_one
two_sockets = refl

-- A request that is under way when the component goes makes a socket after that.
left_open : (given_address [] (cleanup (mount config))).sockets ≡ 0 ∷ []
unfolding mount cleanup connect given_address
left_open = refl

-- After a refusal nothing is left that would connect again.
given_up : is_active (refused [] (mount config)) ≡ false
unfolding mount connect refused
given_up = refl

fails_then_waits : (request_failed [] (mount config)).timers ≡ 0 ∷ []
unfolding mount connect request_failed start_timer
fails_then_waits = refl

abbrev dropped : State
dropped = on_close 0 first

Reaches-CanConnect_example : (is_active dropped ≡ true) × CanConnect dropped
unfolding mount connect given_address on_close start_timer has
Reaches-CanConnect_example =
    Reaches-CanConnect config
      (step {t = first} (step {t = mount config} here (gives_address [] config [] refl))
        (closes 0 refl))
      refl
