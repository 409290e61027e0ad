-- ===== src/Analytics/Engine/Sound/Runs.antt =====
-- The engine over any sequence of candles, snapshots and refreshes, each handled to its end before the
-- next.
use orvixa.Prelude.{ℕ, refl, List, [], ◌∷◌, none, arith}
use orvixa.Prelude.Eq.{Text, ℕ_eq}
use orvixa.Prelude.Dict.{Dict, lookup}
use orvixa.Prelude.Float.{Float, IsOrdered}
use orvixa.Feeds.Base.{Candle, TickerRow}
use orvixa.Persistence.BatchWriter.{init}
use orvixa.Analytics.Engine.{EngineSettings, Stores, Engine}
use orvixa.Analytics.Engine.Pipeline.{handle_candle, handle_snapshot, refresh_regime}
use orvixa.Analytics.Engine.Sound.{IsSound}
use orvixa.Analytics.Engine.Sound.Handlers.{handle_candle-IsSound, refresh_with-IsSound}

-- What is run: a candle, a snapshot, or a refresh at a time.
pub data Action {ℓ} (F : Type ℓ) : Type ℓ where
  candle : Candle F → Action F
  snapshot : List (TickerRow F) → Action F
  refresh : ℕ → Action F

module _ {ℓ} {F : Type ℓ} ⦃f : Float F⦄ (settings : EngineSettings F) where
  -- The actions, one after the other, whatever exceptions they raise to their callers.
  pub run : Stores F → List (Action F) → Engine F → Engine F
  run stores [] e = e
  run stores (candle c ∷ actions) e = run stores actions (handle_candle settings stores c e).1
  run stores (snapshot rows ∷ actions) e =
      run stores actions (handle_snapshot settings stores rows e)
  run stores (refresh now ∷ actions) e = run stores actions (refresh_regime settings stores now e).1

  -- A new engine, with the ids that it is given.
  abbrev pub new_engine : Dict Text ℕ → ℕ → Engine F
  new_engine symbol_ids max_size = record {
    symbol_ids = symbol_ids;
    indicators = [];
    latest_trend = [];
    signal_engine = record { pressure_state = []; highvol_state = [] };
    event_engine = record {
      highs = [];
      lows = [];
      closes = [];
      vol_history = [];
      breakout_state = [];
      pump_dump_state = [];
      vol_spike_state = [];
    };
    breadth = [];
    latest_breadth = none;
    indicator_writer = init max_size;
    signal_rows = [];
    event_rows = [];
    memory_rows = [];
    candles_processed = 0;
    signals_emitted = 0;
    events_emitted = 0;
    regime_refresh_count = 0;
  }

  new_engine-IsSound :
      (symbol_ids : Dict Text ℕ) (max_size : ℕ) → IsSound settings (new_engine symbol_ids max_size)
  unfolding lookup
  new_engine-IsSound symbol_ids max_size = record {
    signals_counted = refl;
    events_counted = refl;
    refreshes_counted = refl;
    healthy = tt;
    gated = ground arith;
    trends_known = λ symbol_id known. absurd (ground (arith, known));
  }

  run_keeps :
      (laws : IsOrdered F) (stores : Stores F) (actions : List (Action F)) (e : Engine F)
      → IsSound settings e
      → IsSound settings (run stores actions e)
  unfolding run handle_snapshot refresh_regime
  run_keeps laws stores [] e h = h
  run_keeps laws stores (candle c ∷ actions) e h =
      run_keeps laws stores actions (handle_candle settings stores c e).1
        (handle_candle-IsSound settings stores c e h)
  run_keeps laws stores (snapshot rows ∷ actions) e h =
      run_keeps laws stores actions (handle_snapshot settings stores rows e) h
  run_keeps laws stores (refresh now ∷ actions) e h =
      run_keeps laws stores actions (refresh_regime settings stores now e).1
        (refresh_with-IsSound settings stores laws now e.latest_breadth e.latest_trend e h)

  -- After any sequence of candles, snapshots and refreshes from a new engine, also where handlers raise:
  -- the counters of signals, events and refreshes are the numbers of rows that were inserted; every
  -- health score that was inserted is from 0 to 100; no signal was inserted where signals are disabled;
  -- and every symbol with a trend has indicators.
  pub run-IsSound :
      (laws : IsOrdered F) (stores : Stores F) (actions : List (Action F))
      (symbol_ids : Dict Text ℕ) (max_size : ℕ)
      → IsSound settings (run stores actions (new_engine symbol_ids max_size))
  run-IsSound laws stores actions symbol_ids max_size =
      run_keeps laws stores actions (new_engine symbol_ids max_size)
        (new_engine-IsSound symbol_ids max_size)
