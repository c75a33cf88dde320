-- ===== src/Socket/Reconnect.antt =====
-- When web/src/lib/bbgo/useWebSocket.ts connects again.
use bbgo_sass.Prelude.{
  ℕ, ◌≡◌, ◌⊎◌, refl, Bool, true, false, ◌&&◌, ◌||◌, List, [], ◌∷◌, ◌++◌, none, arith, ap, ◌∙◌,
  Bool-cases, inl, inr,
}
use bbgo_sass.Socket.{
  Config, State, has, drop_one, connect, start_timer, given_address, request_failed, on_open,
  on_close, timer_fires, cleanup, rerun, mount, Step, gives_address, fails_request, opens, closes,
  fires, reruns, unmounts, Reaches, here, step,
}

abbrev pub is_nonempty {ℓ} : {A : Type ℓ} → List A → Bool
is_nonempty [] = false
is_nonempty (x ∷ xs) = true

-- The component is mounted, and its options ask for a connection.
abbrev pub is_wanted : State → Bool
is_wanted s = s.config.enabled && s.config.has_user && s.mounted

-- There is a socket, a request under way or a timer.
abbrev pub is_active : State → Bool
is_active s = is_nonempty s.sockets || is_nonempty s.pending || is_nonempty s.timers

abbrev pub IsAlive : State → Type 0
IsAlive s = is_wanted s ≡ true → is_active s ≡ true

or_right : (a b c : Bool) → (b ≡ true) ⊎ (c ≡ true) → (a || b || c) ≡ true
or_right a b c (inl h) = ground arith
or_right a b c (inr h) = ground arith

connect-wanted : (s : State) → is_wanted (connect s.config s) ≡ is_wanted s
unfolding connect
connect-wanted s = elim (Bool-cases (is_wanted s)) [ inl e ↦ rw e e | inr e ↦ rw e e ]

connect-active : (s : State) → IsAlive (connect s.config s)
unfolding connect
connect-active s w = elim (Bool-cases (is_wanted s)) [
  | inl e ↦ rw e (or_right (is_nonempty s.sockets) true (is_nonempty s.timers) (inl refl))
  | inr e ↦ absurd (ground (arith, e, connect-wanted s, w))
]

Step-IsAlive : {s t : State} → IsAlive s → Step s t → IsAlive t
unfolding given_address request_failed start_timer on_open on_close timer_fires cleanup rerun
    connect
Step-IsAlive {s} h (gives_address front c back e) = λ w. refl
Step-IsAlive {s} h (fails_request front c back e) =
    λ w. or_right (is_nonempty s.sockets) (is_nonempty (front ++ back)) true (inr refl)
Step-IsAlive {s} h (opens n e) = h
Step-IsAlive {s} h (closes n e) =
    λ w. or_right (is_nonempty (drop_one n s.sockets)) (is_nonempty s.pending) true (inr refl)
Step-IsAlive {s} h (fires n e) = connect-active (record s { timers = drop_one n s.timers })
Step-IsAlive {s} h (reruns config e) =
    connect-active (record (cleanup s) { config = config; mounted = true })
Step-IsAlive {s} h (unmounts e) = λ w. absurd (ground arith)

mount-IsAlive : (config : Config) → IsAlive (mount config)
unfolding mount
mount-IsAlive config = connect-active (record {
  config = config;
  mounted = true;
  ws = none;
  sockets = [];
  next_socket = 0;
  connected = false;
  reconnect = none;
  timers = [];
  next_timer = 0;
  pending = [];
})

Reaches-IsAlive : {s t : State} → IsAlive s → Reaches s t → IsAlive t
Reaches-IsAlive h here = h
Reaches-IsAlive h (step r e) = Step-IsAlive (Reaches-IsAlive h r) e

-- A connection can come about.
abbrev pub CanConnect : State → Type 0
CanConnect s = (t : State) × (Reaches s t × (is_nonempty t.sockets ≡ true))

pending-CanConnect :
    (s u : State) (c : Config) (rest : List Config)
    → s.pending ≡ c ∷ rest
    → Reaches u s
    → CanConnect u
unfolding given_address
pending-CanConnect s u c rest e r =
    (given_address rest s, (step r (gives_address [] c rest e), refl))

has_first : (n : ℕ) (ns : List ℕ) → has n (n ∷ ns) ≡ true
unfolding has
has_first n ns = ground arith

timers-CanConnect :
    (s : State) (n : ℕ) (ns : List ℕ) → s.timers ≡ n ∷ ns → is_wanted s ≡ true → CanConnect s
unfolding connect timer_fires
timers-CanConnect s n ns e w =
    let fired : Step s (timer_fires n s) = fires n (ap (has n) e ∙ has_first n ns) in
    let sent : (timer_fires n s).pending ≡ s.config ∷ s.pending = rw w refl in
    pending-CanConnect (timer_fires n s) s s.config s.pending sent (step here fired)

alive-CanConnect :
    (s : State) (sockets timers : List ℕ) (pending : List Config)
    → s.sockets ≡ sockets
    → s.pending ≡ pending
    → s.timers ≡ timers
    → is_wanted s ≡ true
    → is_active s ≡ true
    → CanConnect s
alive-CanConnect s (n ∷ ns) timers pending a b c w h = (s, (here, ap is_nonempty a))
alive-CanConnect s [] timers (q ∷ qs) a b c w h = pending-CanConnect s s q qs b here
alive-CanConnect s [] (n ∷ ns) [] a b c w h = timers-CanConnect s n ns c w
alive-CanConnect s [] [] [] a b c w h =
    absurd (ground (arith, h, ap is_nonempty a, ap is_nonempty b, ap is_nonempty c))

-- From the first effect on, however sockets open and close, requests fail, timers run out and the options
-- change: while the component is mounted with options that ask for a connection, the machine is not stuck.
-- There is a socket, a request under way or a timer, and a connection can come about. This holds as long
-- as no request is refused.
pub Reaches-CanConnect :
    (config : Config) {s : State}
    → Reaches (mount config) s
    → is_wanted s ≡ true
    → (is_active s ≡ true) × CanConnect s
Reaches-CanConnect config {s} r w =
    let h = Reaches-IsAlive (mount-IsAlive config) r w in
    (h, alive-CanConnect s s.sockets s.timers s.pending refl refl refl w h)
