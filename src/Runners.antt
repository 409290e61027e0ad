-- ===== src/Runners.antt =====
-- The process entry points (src/orvixa/runners): the supervisor of src/orvixa/runners/daemon.py, and the
-- choice of a feed of src/orvixa/factory.py. Wiring and printing are left out.
pub mod Restarts
mod Tests
use orvixa.Prelude.{ℕ, suc, ◌+◌, Bool, true, false, List, [], ◌∷◌, ◌≡◌, if◌then◌else◌, ◌&&◌, not}
use orvixa.Prelude.Eq.{Text, text_beq, codes}
use orvixa.Config.{Settings, all_symbols}

-- How a call of `run` ends.
pub data RunEnd : Type 0 where
  returned crashed cancelled : RunEnd

-- A turn of the loop: how `run` ends; whether `run` registers its own handlers of SIGINT and SIGTERM, in
-- place of those that are there, as `run` of src/orvixa/runners/ingest.py, analytics.py and symbols.py does
-- once the pool is open, and as no code takes back; and whether a signal comes before that in the call
-- (or at any time in a call that does not register), after it in the call, and in the wait for the
-- interval. A signal that the runner's own handlers take has no effect but on how `run` ends.
pub record Turn : Type 0 where
  pub run_end : RunEnd
  pub registers : Bool
  pub signal_before : Bool
  pub signal_after : Bool
  pub signal_in_wait : Bool

-- What the supervisor does: it has stopped, it was cancelled, or it goes on.
pub data Supervision : Type 0 where
  stopped was_cancelled goes_on : Supervision

-- `supervise` over the turns to come, from a number of calls of `run` on. The first argument says
-- whether the handlers that set `stop_event` are still registered.
unfoldable pub supervise : Bool → List Turn → ℕ → Supervision × ℕ
supervise listens [] runs = (goes_on, runs)
supervise listens (t ∷ turns) runs =
    let still = listens && not t.registers in
    let later = supervise still turns (runs + 1) in
    let waited =
      if listens && t.signal_before
      then (stopped, runs + 1)
      else if still && t.signal_in_wait
      then (stopped, runs + 1)
      else later in
    elim t.run_end [ returned ↦ waited | crashed ↦ waited | cancelled ↦ (was_cancelled, runs + 1) ]

-- `build_feed`: the kind of feed and its symbols.
pub data FeedChoice : Type 0 where
  binance_feed sim_feed : List Text → FeedChoice

unfoldable pub build_feed : Settings → FeedChoice
unfolding all_symbols
build_feed s =
    if text_beq s.feed (codes "binance")
    then binance_feed (all_symbols s)
    else sim_feed (all_symbols s)
