-- ===== src/Analytics/Engine/Pipeline.antt =====
-- The handlers of the engine: `handle_candle`, `handle_snapshot` and `refresh_regime`.
use orvixa.Prelude.{
  ℕ, ◌+◌, Bool, true, false, List, [], ◌∷◌, ◌++◌, Option, none, some, length, count_if,
  if◌then◌else◌,
}
use orvixa.Prelude.Eq.{text_eq, ℕ_eq}
use orvixa.Prelude.Dict.{Dict, insert, erase, get_or}
use orvixa.Prelude.Result.{Result, ok, raised, database_error}
use orvixa.Prelude.Float.{Float, of_ℕ}
use orvixa.Feeds.Base.{Candle, TickerRow}
use orvixa.Persistence.BatchWriter.{add}
use orvixa.Persistence.SymbolIds.{resolve_symbol_id}
use orvixa.Symbols.Breadth
use orvixa.Symbols.Breadth.{BreadthSnapshot, trend_window_of}
use orvixa.Analytics.Trend.{IndicatorSnapshot, TrendResult, Direction, up, down, compute_trend}
use orvixa.Analytics.Indicators.{SymbolIndicators, new_indicators, indicators_update}
use orvixa.Analytics.Signals
use orvixa.Analytics.Signals.{SignalResult, SignalEngine}
use orvixa.Analytics.Events
use orvixa.Analytics.Events.{EventResult, EventEngine}
use orvixa.Analytics.Regime
use orvixa.Analytics.Regime.{RegimeResult}
use orvixa.Analytics.Engine.{
  IndicatorRow, MarketMemoryRow, EngineSettings, Stores, Engine, insert_signals, insert_events,
  and_then,
}

abbrev pub is_up : Direction → Bool
is_up up = true
is_up _ = false

abbrev pub is_down : Direction → Bool
is_down down = true
is_down _ = false

module _ {ℓ} {F : Type ℓ} ⦃f : Float F⦄ where
  -- `_latest_trend[symbol_id] = trend`, or `pop` where there is none.
  unfoldable pub set_trend :
      ℕ → Option (TrendResult F) → Dict ℕ (TrendResult F) → Dict ℕ (TrendResult F)
  set_trend symbol_id none trends = erase symbol_id trends
  set_trend symbol_id (some trend) trends = insert symbol_id trend trends

  score_of_trend : Option (TrendResult F) → Option F
  score_of_trend none = none
  score_of_trend (some trend) = some trend.score

  unfoldable pub indicator_row :
      ℕ → ℕ → IndicatorSnapshot F → Option (TrendResult F) → IndicatorRow F
  unfolding score_of_trend
  indicator_row symbol_id ts snapshot trend = record {
    symbol_id = symbol_id;
    ts = ts;
    ema_fast = snapshot.ema_fast;
    ema_slow = snapshot.ema_slow;
    rsi = snapshot.rsi;
    atr = snapshot.atr;
    vol_realized = snapshot.vol_realized;
    vol_rel = snapshot.vol_rel;
    trend_score = score_of_trend trend;
  }

  module _ (settings : EngineSettings F) (stores : Stores F) where
    -- `for signal in self._signal_engine.evaluate(…)`
    unfoldable pub after_signals :
        ℕ
        → ℕ
        → Result (List (SignalResult F)) × SignalEngine
        → Engine F
        → Result (Unit {0}) × Engine F
    unfolding insert_signals
    after_signals symbol_id ts (raised x, machines) e =
        (raised x, record e { signal_engine = machines })
    after_signals symbol_id ts (ok signals, machines) e =
        insert_signals stores symbol_id ts signals (record e { signal_engine = machines })

    unfoldable pub emit_signals :
        ℕ
        → ℕ
        → IndicatorSnapshot F
        → Option (TrendResult F)
        → Engine F
        → Result (Unit {0}) × Engine F
    unfolding after_signals Signals.evaluate
    emit_signals symbol_id ts snapshot trend e =
        if settings.enable_signals
        then after_signals symbol_id ts
            (Signals.evaluate settings.signals symbol_id snapshot trend e.signal_engine) e
        else (ok tt, e)

    unfoldable pub after_events :
        ℕ
        → ℕ
        → Result (List (EventResult F)) × EventEngine F
        → Engine F
        → Result (Unit {0}) × Engine F
    unfolding insert_events
    after_events symbol_id ts (raised x, machines) e =
        (raised x, record e { event_engine = machines })
    after_events symbol_id ts (ok events, machines) e =
        insert_events stores symbol_id ts events (record e { event_engine = machines })

    unfoldable pub emit_events :
        ℕ → ℕ → IndicatorSnapshot F → Engine F → Result (Unit {0}) × Engine F
    unfolding after_events Events.evaluate
    emit_events symbol_id ts snapshot e =
        after_events symbol_id ts
          (Events.evaluate settings.events symbol_id snapshot e.event_engine) e

    unfoldable pub count_candle : Engine F → Result (Unit {0}) × Engine F
    count_candle e = (ok tt, record e { candles_processed = e.candles_processed + 1 })

    -- The part of `handle_candle` that folds the candle of a symbol: the snapshot, the trend, and the
    -- state with the row of indicators added to the writer.
    unfoldable pub fold_candle :
        ℕ → Candle F → Engine F → IndicatorSnapshot F × Option (TrendResult F) × Engine F
    unfolding indicators_update compute_trend set_trend indicator_row add
    fold_candle symbol_id candle e =
        let known = get_or symbol_id new_indicators e.indicators in
        let (snapshot, updated) = indicators_update settings.indicators known candle in
        let trend = compute_trend snapshot in
        (
          snapshot,
          trend,
          record e {
            indicators = insert symbol_id updated e.indicators;
            latest_trend = set_trend symbol_id trend e.latest_trend;
            indicator_writer =
                add (indicator_row symbol_id candle.ts snapshot trend) e.indicator_writer;
          },
        )

    -- `handle_candle` for a candle whose symbol is known.
    unfoldable pub process : ℕ → Candle F → Engine F → Result (Unit {0}) × Engine F
    unfolding fold_candle emit_signals emit_events and_then count_candle
    process symbol_id candle e =
        let (snapshot, trend, folded) = fold_candle symbol_id candle e in
        let signalled = emit_signals symbol_id candle.ts snapshot trend folded in
        and_then (and_then signalled (emit_events symbol_id candle.ts snapshot)) count_candle

    unfoldable pub resolved : Candle F → Result (Option ℕ) → Engine F → Result (Unit {0}) × Engine F
    unfolding process
    resolved candle (raised x) e = (raised x, e)
    resolved candle (ok none) e = (ok tt, e)
    resolved candle (ok (some symbol_id)) e = process symbol_id candle e

    unfoldable pub handle_candle : Candle F → Engine F → Result (Unit {0}) × Engine F
    unfolding resolved resolve_symbol_id
    handle_candle candle e =
        let (answer, ids) = resolve_symbol_id stores.get_id candle.symbol e.symbol_ids in
        let asked : Engine F = record e { symbol_ids = ids } in
        if candle.closed then resolved candle answer asked else (ok tt, e)

    unfoldable pub handle_snapshot : List (TickerRow F) → Engine F → Engine F
    unfolding Breadth.update trend_window_of
    handle_snapshot rows e =
        let (history, snapshot) =
          Breadth.update (trend_window_of settings.breadth_trend_window) rows e.breadth in
        record e { breadth = history; latest_breadth = some snapshot }

    -- The mean of the realized volatilities that are there.
    vols_of : List (ℕ × SymbolIndicators F) → List F
    vols_of [] = []
    vols_of ((_, s) ∷ states) =
        let rest = vols_of states in elim s.vol_realized.value [ none ↦ rest | some v ↦ v ∷ rest ]

    mean_of : List F → Option F
    mean_of [] = none
    mean_of (v ∷ vols) = some (f.div (f.sum (v ∷ vols)) (of_ℕ (length (v ∷ vols))))

    unfoldable pub memory_row : ℕ → RegimeResult F → MarketMemoryRow F
    memory_row now r = record {
      ts = now;
      regime = r.regime;
      vol_regime = r.vol_regime;
      breadth = r.breadth;
      health_score = r.health_score;
    }

    -- The insert of the row, and what `refresh_regime` returns.
    unfoldable pub remember :
        ℕ → Result (RegimeResult F) → Engine F → Result (Option (RegimeResult F)) × Engine F
    unfolding memory_row
    remember now (raised x) e = (raised x, e)
    remember now (ok r) e =
        if stores.takes_memory (memory_row now r)
        then (
          ok (some r),
          record e {
            memory_rows = e.memory_rows ++ memory_row now r ∷ [];
            regime_refresh_count = e.regime_refresh_count + 1;
          },
        )
        else (raised database_error, e)

    unfoldable pub refresh_with :
        ℕ
        → Option (BreadthSnapshot F)
        → List (ℕ × TrendResult F)
        → Engine F
        → Result (Option (RegimeResult F)) × Engine F
    unfolding remember mean_of vols_of Regime.evaluate
    refresh_with now none trends e = (ok none, e)
    refresh_with now (some breadth) [] e = (ok none, e)
    refresh_with now (some breadth) (t ∷ trends) e =
        let total = of_ℕ (length (t ∷ trends)) in
        let ups = of_ℕ (count_if (λ x. is_up x.1.direction) (t ∷ trends)) in
        let downs = of_ℕ (count_if (λ x. is_down x.1.direction) (t ∷ trends)) in
        remember now
          (Regime.evaluate settings.signals.high_volatility_pct breadth (f.div ups total)
            (f.div downs total) (mean_of (vols_of e.indicators)))
          e

    unfoldable pub refresh_regime : ℕ → Engine F → Result (Option (RegimeResult F)) × Engine F
    unfolding refresh_with
    refresh_regime now e = refresh_with now e.latest_breadth e.latest_trend e
