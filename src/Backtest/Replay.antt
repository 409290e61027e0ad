-- ===== src/Backtest/Replay.antt =====
-- The replay of candles through the engine (src/orvixa/backtest/signal_validation.py: `_interval_to_ms`,
-- `_row_to_candle`, `_replay_symbol`, `run_signal_validation`), with the in-memory sinks of
-- src/orvixa/backtest/capture.py and the provenance of src/orvixa/backtest/dataset.py. What the database
-- answers is an argument; a row of candles is read as the values it was written with, and times are
-- epoch milliseconds, of whole seconds, where the conversions from and to `datetime` are exact.
mod Tests
use orvixa.Prelude.{
  ℕ, ◌+◌, ◌-◌, ◌*◌, true, ◌&&◌, ◌||◌, List, [], ◌∷◌, ◌++◌, map, Option, none, some, length, drop,
  leb, if◌then◌else◌, ◌==◌,
}
use orvixa.Prelude.Eq.{Text, text_eq, ℕ_eq, codes}
use orvixa.Prelude.Dict.{Dict, insert, get_or}
use orvixa.Prelude.Sets.{member}
use orvixa.Prelude.Result.{Result, ok, value_error, index_error, ◌>>=◌, or_raise}
use orvixa.Prelude.Float.{Float}
use orvixa.Feeds.Base.{Candle}
use orvixa.Persistence.SymbolIds.{Repository}
use orvixa.Persistence.Candles.{CandleRow}
use orvixa.Analytics.Signals.{SignalType, buy, sell, highvol}
use orvixa.Analytics.Engine.{EngineSettings, Stores, Engine, SignalRow}
use orvixa.Analytics.Engine.Pipeline.{handle_candle}
use orvixa.Analytics.Engine.Sound.Runs.{new_engine}
use orvixa.Backtest.Returns.{forward_returns}
use orvixa.Backtest.Metrics.{Captured, Plan}

-- `text[:-1]` and `text[-1]`
unfoldable pub split_last : Text → Option (Text × ℕ)
split_last [] = none
split_last (c ∷ cs) = elim (split_last cs) [
  | none ↦ some ([], c)
  | some (front, last) ↦ some (c ∷ front, last)
]

-- `_INTERVAL_UNIT_MS` at the unit in lower case, whose code points are those of s, m, h and d.
unfoldable pub unit_ms : ℕ → Option ℕ
unit_ms c =
    if (c == 115) || (c == 83)
    then some 1_000
    else if (c == 109) || (c == 77)
    then some 60_000
    else if (c == 104) || (c == 72)
    then some 3_600_000
    else if (c == 100) || (c == 68)
    then some 86_400_000
    else none

-- The number that ASCII digits write; none where another character stands, or nothing.
unfoldable pub digits_from : ℕ → Text → Option ℕ
digits_from n [] = some n
digits_from n (c ∷ cs) =
    let rest = digits_from (n * 10 + (c - 48)) cs in if leb 48 c && leb c 57 then rest else none

unfoldable pub number_of : Text → Option ℕ
unfolding digits_from
number_of [] = none
number_of (c ∷ cs) = digits_from 0 (c ∷ cs)

unfoldable pub interval_to_ms : Text → Result ℕ
unfolding split_last unit_ms number_of
interval_to_ms interval = do
  parts ← or_raise index_error (split_last interval)
  ms ← or_raise value_error (unit_ms parts.1)
  n ← or_raise value_error (number_of parts.0)
  ok (n * ms)

unfoldable pub row_to_candle {ℓ} : {F : Type ℓ} → Text → CandleRow F → Candle F
row_to_candle symbol row = record {
  symbol = symbol;
  ts = row.ts;
  open_price = row.open_price;
  high = row.high;
  low = row.low;
  close = row.close;
  volume = row.volume;
  quote_volume = row.quote_volume;
  trades = row.trades;
  closed = true;
  taker_buy_volume = row.taker_buy_volume;
}

-- The text of `SignalRow.type`.
unfoldable pub type_text : SignalType → Text
type_text buy = codes "buy"
type_text sell = codes "sell"
type_text highvol = codes "highvol"

pub data DatasetType : Type 0 where
  real synthetic : DatasetType

-- The queries: `list_all` as the bases with their tags, `get_id`, and `select_range` for a symbol and an
-- interval, with the bounds of the run.
pub record Source {ℓ} (F : Type ℓ) : Type ℓ where
  pub list_all : Result (List (Text × List Text))
  pub get_id : Repository
  pub select_range : ℕ → Text → Result (List (CandleRow F))

-- `tags_by_base`, where a later row replaces an earlier one.
unfoldable pub tags_by_base :
    List (Text × List Text) → Dict Text (List Text) → Dict Text (List Text)
tags_by_base [] out = out
tags_by_base ((base, tags) ∷ rows) out = tags_by_base rows (insert base tags out)

-- The loop of `classify_dataset`.
unfoldable pub provenance : Dict Text (List Text) → List Text → DatasetType
unfolding member
provenance tags [] = real
provenance tags (base ∷ symbols) =
    let rest = provenance tags symbols in
    if member (codes "synthetic_data") (get_or base [] tags) then synthetic else rest

unfoldable pub classify_dataset {ℓ} : {F : Type ℓ} → Source F → List Text → Result DatasetType
unfolding tags_by_base provenance
classify_dataset source symbols = do
  rows ← source.list_all
  ok (provenance (tags_by_base rows []) symbols)

module _ {ℓ} {F : Type ℓ} where
  -- The engine's database in a replay: `NullSink` and `SignalCaptureSink` take every row, and the
  -- signals that were taken are `signal_rows` of the engine.
  unfoldable pub capture_stores : Repository → Stores F
  capture_stores get_id = record {
    get_id = get_id;
    takes_signal = λ _. true;
    takes_event = λ _. true;
    takes_memory = λ _. true;
  }

  unfoldable pub captured_of : Candle F → Dict ℕ (Option F) → SignalRow → Captured F
  unfolding type_text
  captured_of candle fwd_returns row = record {
    ts = candle.ts;
    signal = type_text row.signal;
    confidence = row.confidence;
    close = candle.close;
    fwd_returns = fwd_returns;
  }

  -- The series of a symbol, or none where the database does not know it.
  unfoldable pub load_series : Source F → Text → Text → Result (Option (ℕ × List (Candle F)))
  unfolding row_to_candle
  load_series source interval base = do
    id ← source.get_id base
    elim id [
      | none ↦ ok none
      | some symbol_id ↦ do
        rows ← source.select_range symbol_id interval
        ok (some (symbol_id, map (row_to_candle base) rows))
    ]

module _ {ℓ} {F : Type ℓ} ⦃f : Float F⦄ where
  -- The entries of the signals, from index `idx` on.
  unfoldable pub entries_from :
      Plan → List (Candle F) → ℕ → List (Candle F) → List (List SignalRow) → List (Captured F)
  unfolding captured_of
  entries_from plan series idx (candle ∷ candles) (rows ∷ later) =
      map
        (captured_of candle
          (forward_returns series idx plan.horizons plan.execution_lag plan.interval_ms))
        rows
      ++ entries_from plan series (idx + 1) candles later
  entries_from plan series idx _ _ = []

module _ {ℓ} {F : Type ℓ} ⦃f : Float F⦄ (settings : EngineSettings F) (source : Source F) where
  -- What the engine emits for each of the candles, in order, until a handler raises.
  unfoldable pub emitted : List (Candle F) → Engine F → Result (List (List SignalRow))
  unfolding handle_candle capture_stores
  emitted [] e = ok []
  emitted (candle ∷ candles) e =
      let (outcome, next) = handle_candle settings (capture_stores source.get_id) candle e in
      let rest = emitted candles next in
      do _ ← outcome; later ← rest; ok (drop (length e.signal_rows) next.signal_rows ∷ later)

  -- `_replay_symbol`; the writer of indicators stands for `NullSink`.
  unfoldable pub replay_symbol : Plan → Text → Text → Result (List (Captured F) × List (Candle F))
  unfolding load_series emitted entries_from
  replay_symbol plan interval base = do
    series ← load_series source interval base
    elim series [
      | none ↦ ok ([], [])
      | some (symbol_id, candles) ↦ do
        ms ← interval_to_ms interval
        rows ← emitted candles (new_engine settings ((base, symbol_id) ∷ []) 0)
        ok (entries_from (record plan { interval_ms = ms }) candles 0 candles rows, candles)
    ]

  -- The loop over the symbols: the signals and the candles by symbol.
  unfoldable pub replay_symbols :
      Plan
      → Text
      → List Text
      → Dict Text (List (Captured F) × List (Candle F))
      → Result (Dict Text (List (Captured F) × List (Candle F)))
  unfolding replay_symbol
  replay_symbols plan interval [] out = ok out
  replay_symbols plan interval (base ∷ symbols) out = do
    replayed ← replay_symbol plan interval base
    replay_symbols plan interval symbols (insert base replayed out)
