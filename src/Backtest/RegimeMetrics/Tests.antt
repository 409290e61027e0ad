-- ===== src/Backtest/RegimeMetrics/Tests.antt =====
-- The groups of three signals, one of them at no candle's time.
use orvixa.Prelude.{ℕ, ◌≡◌, refl, List, [], ◌∷◌, map}
use orvixa.Prelude.Int.{pos}
use orvixa.Prelude.Eq.{Text, codes, text_eq, pair_eq, ℕ_eq}
use orvixa.Prelude.Dict.{Dict, lookup, insert}
use orvixa.Prelude.Result.{ok}
use orvixa.Prelude.Float.{fmin, fmax}
use orvixa.Prelude.Float.Fixed.{Fixed, fixed_float, runs}
use orvixa.Feeds.Base.{Candle}
use orvixa.Backtest.Replay.{row_to_candle}
use orvixa.Backtest.Metrics.{Captured}
use orvixa.Backtest.Clusters.{isolated, clustered}
use orvixa.Backtest.RegimeMetrics.{RegimeTag, Tagged, grouped}
use orvixa.Backtest.RegimeMetrics.Selected.{signals_in, grouped-signals_in}
use orvixa.Backtest.Runs.Example.{settings, plan, series}

abbrev candles : List (Candle Fixed)
candles = map (row_to_candle (codes "BTC")) (series 1 0 10_000)

abbrev buy_at : ℕ → Captured Fixed
buy_at ts = record {
  ts = ts;
  signal = codes "buy";
  confidence = pos 80;
  close = pos 12_000;
  fwd_returns = [];
}

abbrev signals : List (Captured Fixed)
signals = buy_at 0 ∷ buy_at 30_000 ∷ buy_at 60_000 ∷ []

abbrev level : RegimeTag
level = (codes "flat", codes "unknown")

abbrev rising : RegimeTag
rising = (codes "up", codes "unknown")

abbrev groups : Dict RegimeTag (Dict Text (Tagged Fixed))
groups =
    (level, (codes "buy", (buy_at 0, isolated) ∷ []) ∷ [])
    ∷ (rising, (codes "buy", (buy_at 60_000, clustered) ∷ []) ∷ [])
    ∷ []

grouped_run : grouped plan settings signals candles ≡ ok groups
unfolding grouped lookup insert fmin fmax runs row_to_candle
grouped_run = refl

grouped-signals_in_example :
    (buy_at 60_000, clustered) ∷ [] ≡ signals_in plan settings signals candles rising (codes "buy")
unfolding lookup
grouped-signals_in_example =
    grouped-signals_in plan settings signals candles groups rising (codes "buy") grouped_run
