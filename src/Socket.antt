-- ===== src/Socket.antt =====
-- `useMarketData` of web/src/lib/bbgo/useWebSocket.ts: the connection for market data and its reconnection,
-- as a machine of the events that the code reacts to. Sockets and timers have numbers, in the order in
-- which they are made. The messages that are received do not touch this state.
pub mod Reconnect
mod Tests
use bbgo_sass.Prelude.{
  ℕ, suc, ◌+◌, Bool, true, false, not, ◌&&◌, ◌||◌, List, [], ◌∷◌, ◌++◌, Option, none, some, ◌==◌,
  ◌≡◌, if◌then◌else◌,
}

-- The options that `connect` depends on, as far as its guard reads them.
pub record Config : Type 0 where
  pub enabled : Bool
  pub has_user : Bool

pub record State : Type 0 where
  pub config : Config
  pub mounted : Bool
  -- `wsRef`, the sockets whose `onclose` has not run, and the number of the next one.
  pub ws : Option ℕ
  pub sockets : List ℕ
  pub next_socket : ℕ
  pub connected : Bool
  -- `reconnectRef`, the timers that are running, and the number of the next one.
  pub reconnect : Option ℕ
  pub timers : List ℕ
  pub next_timer : ℕ
  -- The requests for an address that are under way.
  pub pending : List Config

unfoldable pub has : ℕ → List ℕ → Bool
has n [] = false
has n (m ∷ ms) = m == n || has n ms

unfoldable pub drop_one : ℕ → List ℕ → List ℕ
drop_one n [] = []
drop_one n (m ∷ ms) = if m == n then ms else m ∷ drop_one n ms

-- The guard of `connect`, and its request.
unfoldable pub connect : Config → State → State
connect config s =
    if config.enabled && config.has_user && s.mounted
    then record s { pending = config ∷ s.pending }
    else s

-- `reconnectRef.current = setTimeout(...)`: a timer that runs already goes on.
unfoldable pub start_timer : State → State
start_timer s = record s {
  reconnect = some s.next_timer;
  timers = s.next_timer ∷ s.timers;
  next_timer = suc s.next_timer;
}

-- The rest of `connect`, with the requests that are left under way: the request gives an address, ...
unfoldable pub given_address : List Config → State → State
given_address rest s = record s {
  pending = rest;
  ws = some s.next_socket;
  sockets = s.next_socket ∷ s.sockets;
  next_socket = suc s.next_socket;
}

-- ... it throws, ...
unfoldable pub request_failed : List Config → State → State
request_failed rest s = start_timer (record s { pending = rest })

-- ... or it is refused: the response is not OK, or has no address.
unfoldable pub refused : List Config → State → State
refused rest s = record s { pending = rest }

-- `ws.onopen`
unfoldable pub on_open : State → State
on_open s = record s { connected = true }

-- `ws.onclose` of a socket: it does not look at `wsRef`, nor whether the component is mounted.
unfoldable pub on_close : ℕ → State → State
on_close n s =
    start_timer (record s { connected = false; ws = none; sockets = drop_one n s.sockets })

-- A timer runs out: `connectRef.current()`.
unfoldable pub timer_fires : ℕ → State → State
timer_fires n s = connect s.config (record s { timers = drop_one n s.timers })

abbrev pub clear_timer : Option ℕ → List ℕ → List ℕ
clear_timer none ts = ts
clear_timer (some n) ts = drop_one n ts

-- The function that the effect returns. The socket that it closes is there until its `onclose` runs.
unfoldable pub cleanup : State → State
cleanup s = record s { mounted = false; timers = clear_timer s.reconnect s.timers }

-- The effect of a render with other options.
unfoldable pub rerun : Config → State → State
rerun config s = connect config (record (cleanup s) { config = config; mounted = true })

-- The first effect.
unfoldable pub mount : Config → State
mount config = connect config (record {
  config = config;
  mounted = true;
  ws = none;
  sockets = [];
  next_socket = 0;
  connected = false;
  reconnect = none;
  timers = [];
  next_timer = 0;
  pending = [];
})

-- What can happen, but for refusals. A request that ends is any of those that are under way.
pub data Step (s : State) : State → Type 0 where
  gives_address :
      (front : List Config) (c : Config) (back : List Config)
      → s.pending ≡ front ++ (c ∷ back)
      → Step s (given_address (front ++ back) s)
  fails_request :
      (front : List Config) (c : Config) (back : List Config)
      → s.pending ≡ front ++ (c ∷ back)
      → Step s (request_failed (front ++ back) s)
  opens : (n : ℕ) → has n s.sockets ≡ true → Step s (on_open s)
  closes : (n : ℕ) → has n s.sockets ≡ true → Step s (on_close n s)
  fires : (n : ℕ) → has n s.timers ≡ true → Step s (timer_fires n s)
  reruns : (config : Config) → s.mounted ≡ true → Step s (rerun config s)
  unmounts : s.mounted ≡ true → Step s (cleanup s)

pub data Reaches : State → State → Type 0 where
  here : {s : State} → Reaches s s
  step : {s t u : State} → Reaches s t → Step t u → Reaches s u
