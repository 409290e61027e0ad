-- ===== src/Lib.antt =====
-- A verification library for ORVIXA, the market-intelligence backend in src/orvixa.
--
-- The program. A feed (feeds) delivers closed one-minute candles and whole-market snapshots to callbacks.
-- The candle sink (persistence) turns candles into rows and hands them to a batch writer, which flushes
-- them to the database. The symbol manager (symbols) ranks the exchange's universe, assigns tiers, and
-- tells the feed which pairs to stream; the breadth engine folds the snapshots. The analytics package
-- derives indicators, a trend, signals and the market's regime; its engine composes them for each candle.
-- The backtest package replays candles through the engine and judges the signals. Settings, the HTTP API,
-- the loader of historical candles and the supervisor stand around them. Sections of this library and the
-- code they model:
--
-- - Prelude: shared names. Dict, Sets, Result and Float model Python's dict, set, exceptions and float.
-- - Feeds.Base (src/orvixa/feeds/base.py): Candle, TickerRow, `_fan_out`. Feeds.Symbol and Feeds.Normalize
--   (src/orvixa/feeds/normalize.py): `normalize_symbol`, the
--   kline conversions, `miniticker_array_to_rows`. Feeds.Binance (src/orvixa/feeds/binance.py):
--   `subscribe`, `unsubscribe`, `_send_sub`, `_run`, `_next_backoff`; Feeds.Binance.Sessions there:
--   `_combined_url`, `_connect_once`, `_handle_message`, `_gap_fill`, `_default_backfiller`. Feeds.Sim
--   (src/orvixa/feeds/sim.py): the walk of a symbol, its candles and the rounds.
-- - Persistence.BatchWriter (src/orvixa/persistence/batch_writer.py): the class as a step relation.
--   Persistence.SymbolIds and Persistence.Candles (src/orvixa/persistence/candles.py): `_resolve_symbol_id`,
--   `handle_candle`; the same cache serves src/orvixa/analytics/engine.py.
-- - Symbols.Models (src/orvixa/symbols/models.py), Symbols.Ranking (src/orvixa/symbols/ranking.py), Symbols.Breadth
--   (src/orvixa/symbols/breadth.py); Symbols.Listings, Symbols.Tiers and Symbols.Sync (src/orvixa/symbols/manager.py):
--   `_rank_universe`, `_mark_delistings`, `_sync_listings`, `_assign_tiers`, `_sync_feed`;
--   Symbols.Refresh composes them to `refresh_universe`; Symbols.Watchlist
--   (src/orvixa/symbols/watchlist.py); Symbols.Storage: `_load_existing` and the `_persist` methods, and
--   `build_symbol_rows` of src/orvixa/persistence/registry.py.
-- - Analytics.Indicators (src/orvixa/analytics/indicators.py), Analytics.Trend (src/orvixa/analytics/trend.py), Analytics.Regime
--   (src/orvixa/analytics/regime.py, src/orvixa/analytics/health.py), Analytics.Signals (src/orvixa/analytics/signals.py),
--   Analytics.Events (src/orvixa/analytics/events.py); Analytics.Engine (src/orvixa/analytics/engine.py):
--   `handle_candle`, `handle_snapshot`, `refresh_regime`.
-- - Backtest.Policy (src/orvixa/backtest/policy_validation.py, `_classify_validity` of
--   src/orvixa/backtest/regime_validation.py), Backtest.Clusters (`_compute_cluster_tags` of the same file),
--   Backtest.Returns (`_forward_returns` and `_baseline_returns` of src/orvixa/backtest/signal_validation.py),
--   Backtest.SampleSize (`_effective_sample_size` there, and the regime labels and baselines of
--   src/orvixa/backtest/regime_validation.py), Backtest.Bootstrap (`_percentile`, `_bootstrap_ci`),
--   Backtest.Metrics (`compute_signal_metrics`), Backtest.Replay (`_replay_symbol`, with
--   src/orvixa/backtest/capture.py and src/orvixa/backtest/dataset.py), Backtest.RegimeMetrics
--   (`compute_regime_metrics`), and Backtest.Runs: `run_signal_validation`, `run_regime_validation` and
--   `run_policy_validation`, each on the result of the one before.
-- - Config (src/orvixa/config.py): the validators and the lists. Api (src/orvixa/api/app.py,
--   src/orvixa/api/auth.py): the routes with the check of the key. Backfill
--   (src/orvixa/backfill/csv_loader.py). Runners (src/orvixa/runners/daemon.py, with the
--   signal handlers that the runners register; src/orvixa/factory.py).
--
-- How the code is modelled.
-- - A float is an element of any type with the interface `Float`: its arithmetic, comparisons, `round`,
--   `sum` and parsing are parameters. Theorems that need the order take the laws `IsOrdered`, which hold
--   of IEEE 754 doubles, NaN included. Fixed-point numbers with a NaN-free order satisfy the laws, and the
--   tests run on them.
-- - A text is the list of its code points; the case of letters is that of ASCII, as in the names of pairs.
--   A timestamp is a number of epoch milliseconds.
-- - A generator of random numbers is an argument with its state, so that the simulated feed and the
--   bootstrap are functions of it.
-- - An exception is a value of `Result`. The database, the socket, the sink and the clock are arguments
--   or labels of steps: the sink may return or raise, a session may close or fail.
-- - A coroutine of the batch writer is cut at its suspension points; `Step` interleaves the pieces in any
--   order, with the assumption that `start` is not called while a `stop` is under way. No fuel is used:
--   every loop is a recursion over the data it walks, and the two endless loops (`_run` of the writer and
--   of the feed) are steps or a list of the sessions to come.
-- - A set and a dict are lists, read through membership and lookup.
--
-- Not modelled: SQL and migrations, the transport of HTTP and of sockets, logging, the reading of settings
-- from the environment, wiring and printing of the process entry points, the tasks that only repeat a
-- modelled step, and figures that are rounded for display only.
pub mod Prelude
pub mod Feeds
pub mod Persistence
pub mod Symbols
pub mod Backtest
pub mod Analytics
pub mod Config
pub mod Api
pub mod Backfill
pub mod Runners
