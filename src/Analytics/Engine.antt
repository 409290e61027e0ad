-- ===== src/Analytics/Engine.antt =====
-- `AnalyticsEngine` (src/orvixa/analytics/engine.py): the candle pipeline, the snapshots, and the
-- refresh of the regime. Whether an insert into the database raises is an argument; the rows that were
-- inserted are logged in the state. The figures for display (`components`, `payload`, `snapshot`) are
-- left out.
pub mod Pipeline
pub mod Sound
mod Tests
use orvixa.Prelude.{
  ℕ, ◌+◌, Bool, true, false, List, [], ◌∷◌, ◌++◌, map, Option, none, some, length, count_if,
  if◌then◌else◌,
}
use orvixa.Prelude.Int.{ℤ}
use orvixa.Prelude.Eq.{Text, text_eq, ℕ_eq}
use orvixa.Prelude.Dict.{Dict, lookup, insert, erase, get_or}
use orvixa.Prelude.Result.{Result, ok, raised, database_error}
use orvixa.Prelude.Float.{Float, of_ℕ}
use orvixa.Feeds.Base.{Candle, TickerRow}
use orvixa.Persistence.BatchWriter.{BatchWriter, add}
use orvixa.Persistence.SymbolIds.{Repository, resolve_symbol_id}
use orvixa.Symbols.Breadth.{BreadthSnapshot}
use orvixa.Analytics.Trend.{
  IndicatorSnapshot, TrendResult, Direction, up, down, flat, compute_trend,
}
use orvixa.Analytics.Indicators.{
  IndicatorSettings, SymbolIndicators, new_indicators, indicators_update,
}
use orvixa.Analytics.Signals.{SignalType, State, SignalResult, SignalEngine, SignalSettings}
use orvixa.Analytics.Events.{EventType, EventResult, EventEngine, EventSettings}
use orvixa.Analytics.Regime.{MarketRegime, VolRegime, RegimeResult}

pub record IndicatorRow {ℓ} (F : Type ℓ) : Type ℓ where
  pub symbol_id : ℕ
  pub ts : ℕ
  pub ema_fast : Option F
  pub ema_slow : Option F
  pub rsi : Option F
  pub atr : Option F
  pub vol_realized : Option F
  pub vol_rel : Option F
  pub trend_score : Option F

pub record SignalRow : Type 0 where
  pub symbol_id : ℕ
  pub ts : ℕ
  pub signal : SignalType
  pub confidence : ℤ
  pub state_from : State
  pub state_to : State

pub record MarketEventRow {ℓ} (F : Type ℓ) : Type ℓ where
  pub symbol_id : ℕ
  pub ts : ℕ
  pub event : EventType
  pub magnitude : F
  pub severity : ℕ
  pub price : F

pub record MarketMemoryRow {ℓ} (F : Type ℓ) : Type ℓ where
  pub ts : ℕ
  pub regime : MarketRegime
  pub vol_regime : VolRegime
  pub breadth : F
  pub health_score : ℤ

pub record EngineSettings {ℓ} (F : Type ℓ) : Type ℓ where
  pub indicators : IndicatorSettings
  pub signals : SignalSettings F
  pub events : EventSettings F
  pub enable_signals : Bool
  pub breadth_trend_window : ℕ

-- What the database does: the ids that it knows, and whether it takes a row.
pub record Stores {ℓ} (F : Type ℓ) : Type ℓ where
  pub get_id : Repository
  pub takes_signal : SignalRow → Bool
  pub takes_event : MarketEventRow F → Bool
  pub takes_memory : MarketMemoryRow F → Bool

pub record Engine {ℓ} (F : Type ℓ) : Type ℓ where
  pub symbol_ids : Dict Text ℕ
  pub indicators : Dict ℕ (SymbolIndicators F)
  pub latest_trend : Dict ℕ (TrendResult F)
  pub signal_engine : SignalEngine
  pub event_engine : EventEngine F
  pub breadth : Dict Text (List F)
  pub latest_breadth : Option (BreadthSnapshot F)
  pub indicator_writer : BatchWriter (IndicatorRow F)
  pub signal_rows : List SignalRow
  pub event_rows : List (MarketEventRow F)
  pub memory_rows : List (MarketMemoryRow F)
  pub candles_processed : ℕ
  pub signals_emitted : ℕ
  pub events_emitted : ℕ
  pub regime_refresh_count : ℕ

module _ {ℓ} {F : Type ℓ} where
  unfoldable pub signal_row : ℕ → ℕ → SignalResult F → SignalRow
  signal_row symbol_id ts r = record {
    symbol_id = symbol_id;
    ts = ts;
    signal = r.signal;
    confidence = r.confidence;
    state_from = r.state_from;
    state_to = r.state_to;
  }

  unfoldable pub event_row : ℕ → ℕ → EventResult F → MarketEventRow F
  event_row symbol_id ts r = record {
    symbol_id = symbol_id;
    ts = ts;
    event = r.event;
    magnitude = r.magnitude;
    severity = r.severity;
    price = r.price;
  }

  -- The loop over the signals: each is inserted and counted; an insert that raises ends it.
  unfoldable pub insert_signals :
      Stores F → ℕ → ℕ → List (SignalResult F) → Engine F → Result (Unit {0}) × Engine F
  unfolding signal_row
  insert_signals stores symbol_id ts [] e = (ok tt, e)
  insert_signals stores symbol_id ts (r ∷ signals) e =
      let row = signal_row symbol_id ts r in
      let next : Engine F = record e {
        signal_rows = e.signal_rows ++ row ∷ [];
        signals_emitted = e.signals_emitted + 1;
      } in
      let rest = insert_signals stores symbol_id ts signals next in
      if stores.takes_signal row then rest else (raised database_error, e)

  unfoldable pub insert_events :
      Stores F → ℕ → ℕ → List (EventResult F) → Engine F → Result (Unit {0}) × Engine F
  unfolding event_row
  insert_events stores symbol_id ts [] e = (ok tt, e)
  insert_events stores symbol_id ts (r ∷ events) e =
      let row = event_row symbol_id ts r in
      let next : Engine F = record e {
        event_rows = e.event_rows ++ row ∷ [];
        events_emitted = e.events_emitted + 1;
      } in
      let rest = insert_events stores symbol_id ts events next in
      if stores.takes_event row then rest else (raised database_error, e)

  -- The state goes on to `next` unless an exception ends the handler.
  unfoldable pub and_then :
      Result (Unit {0}) × Engine F
      → (Engine F → Result (Unit {0}) × Engine F)
      → Result (Unit {0}) × Engine F
  and_then (ok _, e) next = next e
  and_then (raised x, e) next = (raised x, e)
