-- ===== src/Backtest/Runs/Example.antt =====
-- An example for the tests of replays and validations: a rising series with regular set-backs.
use orvixa.Prelude.{ℕ, zero, suc, ◌+◌, ◌*◌, ◌/◌, true, List, [], ◌∷◌, some, take}
use orvixa.Prelude.Int.{pos}
use orvixa.Prelude.Eq.{codes, text_eq, ℕ_eq}
use orvixa.Prelude.Result.{ok}
use orvixa.Prelude.Float.Fixed.{Fixed, fixed_float}
use orvixa.Persistence.Candles.{CandleRow}
use orvixa.Analytics.Engine.{EngineSettings}
use orvixa.Backtest.Bootstrap.{Random}
use orvixa.Backtest.Metrics.{Plan}
use orvixa.Backtest.Replay.{Source}

-- Draws the first values.
abbrev pub rng : Random Fixed ℕ
rng = record { seeded = λ seed. seed; choices = λ values k state. (take k values, state + 1) }

abbrev pub settings : EngineSettings Fixed
settings = record {
  indicators = record {
    ema_fast_period = 1;
    ema_slow_period = 9;
    rsi_period = 1;
    atr_period = 1;
    realized_vol_window = 2;
    relative_volume_window = 1;
  };
  signals = record { signal_min_confidence = pos 60; high_volatility_pct = pos 30_000 };
  events = record {
    breakout_window = 1;
    pump_dump_window = 5;
    pump_dump_pct = pos 50_000;
    vol_spike_window = 5;
    vol_spike_multiplier = pos 20_000;
  };
  enable_signals = true;
  breadth_trend_window = 3;
}

abbrev pub row : ℕ → ℕ → CandleRow Fixed
row ts close = record {
  symbol_id = 7;
  ts = ts;
  open_price = pos close;
  high = pos close;
  low = pos close;
  close = pos close;
  volume = pos 10_000;
  quote_volume = pos 10_000;
  trades = 1;
  taker_buy_volume = pos 0;
  interval = codes "1m";
}

-- Two minutes with a gain of a fifth, and one with a loss of a twentieth.
abbrev pub series : ℕ → ℕ → ℕ → List (CandleRow Fixed)
series zero ts close = []
series (suc n) ts close =
    let first = close * 12 / 10 in
    let second = first * 12 / 10 in
    let third = second * 95 / 100 in
    row ts first
    ∷ row (ts + 60_000) second
    ∷ row (ts + 120_000) third
    ∷ series n (ts + 180_000) third

abbrev pub source : Source Fixed
source = record {
  list_all = ok ((codes "BTC", codes "large_cap" ∷ []) ∷ []);
  get_id = λ _. ok (some 7);
  select_range = λ _ _. ok (series 6 0 10_000);
}

abbrev pub plan : Plan
plan = record {
  horizons = 1 ∷ [];
  execution_lag = 1;
  interval_ms = 60_000;
  bootstrap_iterations = 10;
  bootstrap_seed = 0;
}
