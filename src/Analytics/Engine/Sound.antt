-- ===== src/Analytics/Engine/Sound.antt =====
-- The invariant of the engine, and what keeps it.
pub mod Handlers
pub mod Runs
use orvixa.Prelude.{
  ==_iff, ℕ, ◌+◌, ◌≤◌, ◌≡◌, refl, ◌∙◌, ap, Bool, true, false, not, ◌||◌, List, [], ◌∷◌, ◌++◌,
  Option, none, some, length, length-append, All, All-append, arith, if◌then◌else◌, ◌⊎◌, inl, inr,
  Bool-cases,
}
use orvixa.Prelude.Int.{ℤ, pos}
use orvixa.Prelude.Eq.{Text, ℕ_eq}
use orvixa.Prelude.Dict.{Dict, lookup, insert, erase, get_or, contains, lookup-insert, lookup-erase}
use orvixa.Prelude.Result.{Result, ok, raised, Result-cases}
use orvixa.Prelude.Float.{Float, IsOrdered, of_ℕ}
use orvixa.Feeds.Base.{Candle, TickerRow}
use orvixa.Persistence.BatchWriter.{init}
use orvixa.Persistence.SymbolIds.{resolve_symbol_id}
use orvixa.Symbols.Breadth.{BreadthSnapshot}
use orvixa.Analytics.Trend.{IndicatorSnapshot, TrendResult, compute_trend}
use orvixa.Analytics.Indicators.{SymbolIndicators, new_indicators, indicators_update}
use orvixa.Analytics.Signals.{SignalResult, SignalEngine}
use orvixa.Analytics.Events.{EventResult, EventEngine}
use orvixa.Analytics.Regime.{RegimeResult}
use orvixa.Analytics.Regime.Health.{evaluate-range}
use orvixa.Analytics.Engine.{
  MarketEventRow, event_row, signal_row, SignalRow, MarketMemoryRow, EngineSettings, Stores, Engine,
  insert_signals, insert_events, and_then,
}
use orvixa.Analytics.Engine.Pipeline.{
  set_trend, after_signals, emit_signals, after_events, emit_events, count_candle, fold_candle,
  process, resolved, handle_candle, handle_snapshot, memory_row, remember, refresh_with,
  refresh_regime,
}

abbrev is_nil {ℓ} : {A : Type ℓ} → List A → Bool
is_nil [] = true
is_nil (_ ∷ _) = false

module _ {ℓ} {F : Type ℓ} ⦃f : Float F⦄ (settings : EngineSettings F) where
  -- A row of the market memory with a health score from 0 to 100.
  abbrev pub IsHealthy : MarketMemoryRow F → Type 0
  IsHealthy row = (m : ℕ) × (row.health_score ≡ pos m) × (m ≤ 100)

  -- The fields that the invariant is about.
  pub record Counts (signals_emitted events_emitted refreshes : ℕ) (signal_rows : List SignalRow)
      (event_rows : List (MarketEventRow F)) (memory_rows : List (MarketMemoryRow F))
      (trends : Dict ℕ (TrendResult F)) (indicators : Dict ℕ (SymbolIndicators F)) : Type ℓ where
    pub signals_counted : signals_emitted ≡ length signal_rows
    pub events_counted : events_emitted ≡ length event_rows
    pub refreshes_counted : refreshes ≡ length memory_rows
    pub healthy : All IsHealthy memory_rows
    pub gated : (settings.enable_signals || is_nil signal_rows) ≡ true
    pub trends_known :
        (symbol_id : ℕ) → contains symbol_id trends ≡ true → contains symbol_id indicators ≡ true

  -- The counters agree with the rows that were inserted, every health score is in range, no signal was
  -- inserted where signals are disabled, and a symbol with a trend has indicators.
  abbrev pub IsSound : Engine F → Type ℓ
  IsSound e =
      Counts e.signals_emitted e.events_emitted e.regime_refresh_count e.signal_rows e.event_rows
        e.memory_rows e.latest_trend e.indicators

  pub with_signal :
      (e : Engine F) (row : SignalRow)
      → settings.enable_signals ≡ true
      → IsSound e
      → IsSound (record e {
        signal_rows = e.signal_rows ++ row ∷ [];
        signals_emitted = e.signals_emitted + 1;
      })
  with_signal e row on h = record {
    signals_counted = omega (arith, h.signals_counted, length-append e.signal_rows (row ∷ []));
    events_counted = h.events_counted;
    refreshes_counted = h.refreshes_counted;
    healthy = h.healthy;
    gated = ground (arith, on);
    trends_known = h.trends_known;
  }

  pub with_event :
      (e : Engine F) (row : MarketEventRow F)
      → IsSound e
      → IsSound (record e {
        event_rows = e.event_rows ++ row ∷ [];
        events_emitted = e.events_emitted + 1;
      })
  with_event e row h = record {
    signals_counted = h.signals_counted;
    events_counted = omega (arith, h.events_counted, length-append e.event_rows (row ∷ []));
    refreshes_counted = h.refreshes_counted;
    healthy = h.healthy;
    gated = h.gated;
    trends_known = h.trends_known;
  }

  pub with_memory :
      (e : Engine F) (row : MarketMemoryRow F)
      → IsHealthy row
      → IsSound e
      → IsSound (record e {
        memory_rows = e.memory_rows ++ row ∷ [];
        regime_refresh_count = e.regime_refresh_count + 1;
      })
  with_memory e row fine h = record {
    signals_counted = h.signals_counted;
    events_counted = h.events_counted;
    refreshes_counted = omega (arith, h.refreshes_counted, length-append e.memory_rows (row ∷ []));
    healthy = All-append IsHealthy e.memory_rows (row ∷ []) h.healthy (fine, tt);
    gated = h.gated;
    trends_known = h.trends_known;
  }

  -- A candle's indicators and trend of one symbol.
  pub with_candle :
      (e : Engine F) (symbol_id : ℕ) (updated : SymbolIndicators F) (trend : Option (TrendResult F))
      → IsSound e
      → Counts e.signals_emitted e.events_emitted e.regime_refresh_count e.signal_rows e.event_rows
          e.memory_rows
          (set_trend symbol_id trend e.latest_trend)
          (insert symbol_id updated e.indicators)
  unfolding set_trend
  with_candle e symbol_id updated trend h = record {
    signals_counted = h.signals_counted;
    events_counted = h.events_counted;
    refreshes_counted = h.refreshes_counted;
    healthy = h.healthy;
    gated = h.gated;
    trends_known = λ other. known other trend;
  }
    where
      known :
          (other : ℕ) (t : Option (TrendResult F))
          → contains other (set_trend symbol_id t e.latest_trend) ≡ true
          → contains other (insert symbol_id updated e.indicators) ≡ true
      known other none c = ground (
        arith,
        lookup-erase symbol_id other e.latest_trend,
        lookup-insert symbol_id other updated e.indicators,
        h.trends_known other,
      )
      known other (some t) c = ground (
        arith,
        lookup-insert symbol_id other t e.latest_trend,
        lookup-insert symbol_id other updated e.indicators,
        h.trends_known other,
      )

  -- A handler under a test.
  pub if-IsSound {κ} :
      {A : Type κ} (b : Bool) (x y : A × Engine F)
      → (b ≡ true → IsSound x.1)
      → IsSound y.1
      → IsSound (if b then x else y).1
  if-IsSound true x y h k = h refl
  if-IsSound false x y h k = k
