-- ===== src/Feeds/Binance.antt =====
-- `BinanceFeed` (src/orvixa/feeds/binance.py): the set of tracked pairs and the control frames, the
-- reconnect loop with its backoff, and the gap fill. What the network does in a session is an argument.
pub mod Tracking
pub mod Reconnect
pub mod Sessions
mod Tests
use orvixa.Prelude.{
  ℕ, suc, ◌+◌, ◌-◌, ◌≡◌, min, Bool, true, false, List, [], ◌∷◌, ◌++◌, map, Option, none, some,
  length, get_elem?, ltb, leb, if◌then◌else◌,
}
use orvixa.Prelude.Eq.{Text, text_eq, codes}
use orvixa.Prelude.Sets.{member, union, minus, meet}
use orvixa.Prelude.Float.{Float}
use orvixa.Feeds.Symbol.{upper, to_stream_symbol}

-- A frame of `_send_sub`: the method, and the pairs whose streams it names.
pub data Frame : Type 0 where
  subscribed : List Text → Frame
  unsubscribed : List Text → Frame

-- `_symbols`, whether `_ws` is a socket, and the frames that were sent on it.
pub record Subscriptions : Type 0 where
  pub symbols : List Text
  pub has_socket : Bool
  pub frames : List Frame

-- `{s.upper() for s in symbols}`
abbrev pub upper_all : List Text → List Text
upper_all = map upper

-- `__init__`
unfoldable pub track : List Text → Subscriptions
unfolding union
track symbols = record { symbols = union [] (upper_all symbols); has_socket = false; frames = [] }

-- `_send_sub`, where there is a socket.
send : Frame → Subscriptions → Subscriptions
send frame s = if s.has_socket then record s { frames = s.frames ++ frame ∷ [] } else s

subscribe_new : List Text → Subscriptions → Subscriptions
subscribe_new [] s = s
subscribe_new (p ∷ new) s =
    send (subscribed (p ∷ new)) (record s { symbols = union s.symbols (p ∷ new) })

unfoldable pub subscribe : List Text → Subscriptions → Subscriptions
unfolding subscribe_new send
subscribe pairs s = subscribe_new (minus (union [] (upper_all pairs)) s.symbols) s

unsubscribe_drop : List Text → Subscriptions → Subscriptions
unsubscribe_drop [] s = s
unsubscribe_drop (p ∷ drop) s =
    send (unsubscribed (p ∷ drop)) (record s { symbols = minus s.symbols (p ∷ drop) })

unfoldable pub unsubscribe : List Text → Subscriptions → Subscriptions
unfolding unsubscribe_drop send
unsubscribe pairs s = unsubscribe_drop (meet (union [] (upper_all pairs)) s.symbols) s

-- `_streams_for`, at the interval.
unfoldable pub streams_for : Text → List Text → List Text
streams_for interval = map (λ s. to_stream_symbol s ++ codes "@kline_" ++ interval)

-- `_BACKOFF_STEPS`, in seconds.
abbrev pub backoff_steps : List ℕ
backoff_steps = 1 ∷ 2 ∷ 5 ∷ 10 ∷ 20 ∷ 30 ∷ []

-- `base` of `_next_backoff`.
unfoldable pub backoff_base : ℕ → ℕ
backoff_base attempt = elim (get_elem? backoff_steps (min attempt (length backoff_steps - 1))) [
  | none ↦ 0
  | some b ↦ b
]

-- `_next_backoff`, for a `random.random()`.
unfoldable pub next_backoff {ℓ} : {F : Type ℓ} ⦃f : Float F⦄ → ℕ → F → F
unfolding backoff_base
next_backoff ⦃f⦄ attempt random =
    let base = f.lit (backoff_base attempt) 1 in
    f.add base (f.mul random (f.mul base (f.lit 25 100)))

-- How `_connect_once` ends: the session closes, or an exception ends it, also one that the connector or
-- a message raises; `stops` says that `stop` has set `_running` to false by then.
pub data Session : Type 0 where
  closed : Session
  failed : Session
  failed_stopping : Session

-- `attempt`, the counters and the attempts whose delays `backoff_history` holds.
pub record Run : Type 0 where
  pub attempt : ℕ
  pub connect_count : ℕ
  pub backoff_history : List ℕ
  pub gave_up : Bool

unfoldable pub start_run : Run
start_run = record { attempt = 0; connect_count = 0; backoff_history = []; gave_up = false }

exceeds : Option ℕ → ℕ → Bool
exceeds none attempt = false
exceeds (some max_reconnects) attempt = ltb max_reconnects attempt

-- The loop of `_run` over the sessions to come. After the last one the loop goes on waiting.
unfoldable pub run : Option ℕ → List Session → Run → Run
unfolding exceeds
run max_reconnects [] r = r
run max_reconnects (closed ∷ sessions) r =
    run max_reconnects sessions (record r { attempt = 0; connect_count = r.connect_count + 1 })
run max_reconnects (failed_stopping ∷ sessions) r = record r { connect_count = r.connect_count + 1 }
run max_reconnects (failed ∷ sessions) r =
    let next : Run = record r {
      attempt = r.attempt + 1;
      connect_count = r.connect_count + 1;
      backoff_history = r.backoff_history ++ r.attempt ∷ [];
    } in
    let rest = run max_reconnects sessions next in
    if exceeds max_reconnects (r.attempt + 1) then record next { gave_up = true } else rest
