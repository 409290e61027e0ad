-- ===== src/Analytics/Engine/Tests.antt =====
-- The engine over two candles, a snapshot and a refresh.
use orvixa.Prelude.{ℕ, true, [], ◌∷◌, some}
use orvixa.Prelude.Int.{pos}
use orvixa.Prelude.Eq.{codes}
use orvixa.Prelude.Result.{ok}
use orvixa.Prelude.Float.Fixed.{Fixed, fixed_float}
use orvixa.Prelude.Float.Lawful.{Fixed-IsOrdered}
use orvixa.Feeds.Base.{Candle}
use orvixa.Analytics.Engine.{EngineSettings, Stores}
use orvixa.Analytics.Engine.Sound.{IsSound}
use orvixa.Analytics.Engine.Sound.Runs.{
  Action, candle, snapshot, refresh, run, new_engine, run-IsSound,
}

abbrev settings : EngineSettings Fixed
settings = record {
  indicators = record {
    ema_fast_period = 1;
    ema_slow_period = 1;
    rsi_period = 1;
    atr_period = 1;
    realized_vol_window = 2;
    relative_volume_window = 2;
  };
  signals = record { signal_min_confidence = pos 60; high_volatility_pct = pos 30_000 };
  events = record {
    breakout_window = 1;
    pump_dump_window = 5;
    pump_dump_pct = pos 50_000;
    vol_spike_window = 5;
    vol_spike_multiplier = pos 20_000;
  };
  enable_signals = true;
  breadth_trend_window = 3;
}

abbrev stores : Stores Fixed
stores = record {
  get_id = λ _. ok (some 7);
  takes_signal = λ _. true;
  takes_event = λ _. true;
  takes_memory = λ _. true;
}

abbrev minute : ℕ → ℕ → Candle Fixed
minute ts close = record {
  symbol = codes "BTC";
  ts = ts;
  open_price = pos close;
  high = pos close;
  low = pos close;
  close = pos close;
  volume = pos 10_000;
  quote_volume = pos 10_000;
  trades = 1;
  closed = true;
  taker_buy_volume = pos 0;
}

abbrev rise : Action Fixed
rise = snapshot (
    record {
      symbol = codes "BTC";
      price = pos 120_000;
      change_pct = pos 10_000;
      quote_volume = pos 10_000;
    }
    ∷ [])

run-IsSound_example : IsSound settings (
    run settings stores
      (candle (minute 0 100_000) ∷ candle (minute 60_000 120_000) ∷ rise ∷ refresh 120_000 ∷ [])
      (new_engine settings [] 100))
run-IsSound_example =
    run-IsSound settings Fixed-IsOrdered stores
      (candle (minute 0 100_000) ∷ candle (minute 60_000 120_000) ∷ rise ∷ refresh 120_000 ∷ []) []
      100
