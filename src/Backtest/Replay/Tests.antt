-- ===== src/Backtest/Replay/Tests.antt =====
-- A replay of the example.
use orvixa.Prelude.{◌++◌, map, ℕ, ◌≡◌, refl, List, [], ◌∷◌}
use orvixa.Prelude.Int.{pos}
use orvixa.Prelude.Eq.{codes, text_eq, ℕ_eq}
use orvixa.Prelude.Dict.{lookup, insert}
use orvixa.Prelude.Result.{ok}
use orvixa.Prelude.Float.Fixed.{Fixed, fixed_float, runs}
use orvixa.Analytics.Engine.{Engine, SignalRow}
use orvixa.Backtest.Replay.{row_to_candle, emitted}
use orvixa.Prelude.Float.{fmin, fmax}
use orvixa.Analytics.Engine.Sound.Runs.{new_engine}
use orvixa.Analytics.Signals.{buy, highvol, pressure, volatility, neutral, buying, normal, high}
use orvixa.Feeds.Base.{Candle}
use orvixa.Backtest.Runs.Example.{settings, source, series}

abbrev replayed : List (Candle Fixed)
replayed = map (row_to_candle (codes "BTC")) (series 1 0 10_000)

abbrev later : List (Candle Fixed)
later = map (row_to_candle (codes "BTC")) (series 1 180_000 13_680)

abbrev fresh_engine : Engine Fixed
fresh_engine = new_engine settings ((codes "BTC", 7) ∷ []) 0

abbrev buy_at : ℕ → SignalRow
buy_at ts = record {
  symbol_id = 7;
  ts = ts;
  signal = buy;
  confidence = pos 80;
  state_from = pressure neutral;
  state_to = pressure buying;
}

abbrev highvol_row : SignalRow
highvol_row = record {
  symbol_id = 7;
  ts = 120_000;
  signal = highvol;
  confidence = pos 100;
  state_from = volatility normal;
  state_to = volatility high;
}

abbrev all_rows : List (List SignalRow)
all_rows = [] ∷ [] ∷ (buy_at 120_000 ∷ highvol_row ∷ []) ∷ [] ∷ [] ∷ (buy_at 300_000 ∷ []) ∷ []

replay_runs : emitted settings source (replayed ++ later) fresh_engine ≡ ok all_rows
unfolding emitted row_to_candle lookup insert fmin fmax runs
replay_runs = refl
