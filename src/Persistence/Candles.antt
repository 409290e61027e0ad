-- ===== src/Persistence/Candles.antt =====
-- `CandleSink` (src/orvixa/persistence/candles.py): closed candles of known symbols become rows of the
-- batch writer. A timestamp is kept as epoch milliseconds.
pub mod Rows
mod Tests
use orvixa.Prelude.{ℕ, ◌≡◌, Bool, true, false, Option, none, some, List, [], ◌∷◌, if◌then◌else◌}
use orvixa.Prelude.Eq.{Text}
use orvixa.Prelude.Dict.{Dict}
use orvixa.Prelude.Result.{Error, Result, ok, raised}
use orvixa.Feeds.Base.{Candle}
use orvixa.Persistence.BatchWriter
use orvixa.Persistence.BatchWriter.{BatchWriter}
use orvixa.Persistence.SymbolIds.{Repository, resolve_symbol_id}

-- `CandleRow` (src/orvixa/db/models.py)
pub record CandleRow {ℓ} (F : Type ℓ) : Type ℓ where
  pub symbol_id : ℕ
  pub ts : ℕ
  pub open_price : F
  pub high : F
  pub low : F
  pub close : F
  pub volume : F
  pub quote_volume : F
  pub trades : ℕ
  pub taker_buy_volume : F
  pub interval : Text

pub record CandleSink {ℓ} (F : Type ℓ) : Type ℓ where
  pub symbol_ids : Dict Text ℕ
  pub batch_writer : BatchWriter (CandleRow F)
  pub interval : Text

module _ {ℓ} {F : Type ℓ} where
  unfoldable pub row_of : Text → ℕ → Candle F → CandleRow F
  row_of interval symbol_id c = record {
    symbol_id = symbol_id;
    ts = c.ts;
    open_price = c.open_price;
    high = c.high;
    low = c.low;
    close = c.close;
    volume = c.volume;
    quote_volume = c.quote_volume;
    trades = c.trades;
    taker_buy_volume = c.taker_buy_volume;
    interval = interval;
  }

  write : Candle F → Result (Option ℕ) → CandleSink F → Result (Unit {0}) × CandleSink F
  unfolding row_of BatchWriter.add
  write c (ok (some id)) s =
      (ok tt, record s { batch_writer = BatchWriter.add (row_of s.interval id c) s.batch_writer })
  write c (ok none) s = (ok tt, s)
  write c (raised e) s = (raised e, s)

  unfoldable pub handle_candle :
      Repository → Candle F → CandleSink F → Result (Unit {0}) × CandleSink F
  unfolding write
  handle_candle get_id c s =
      let (id, ids) = resolve_symbol_id get_id c.symbol s.symbol_ids in
      if c.closed then write c id (record s { symbol_ids = ids }) else (ok tt, s)

  -- The candles of a feed in turn. What the callback raises, the feed logs (`MarketFeed._fan_out`).
  unfoldable pub handle_candles : Repository → List (Candle F) → CandleSink F → CandleSink F
  handle_candles get_id [] s = s
  handle_candles get_id (c ∷ candles) s = handle_candles get_id candles (handle_candle get_id c s).1
