-- ===== src/Persistence/Candles/Tests.antt =====
-- The candle sink at concrete candles.
use orvixa.Prelude.{ℕ, ◌≡◌, Bool, true, false, some, none, List, [], ◌∷◌, ◌++◌, if◌then◌else◌}
use orvixa.Prelude.Eq.{Text, codes, text_beq, text_eq}
use orvixa.Prelude.Dict.{lookup}
use orvixa.Prelude.Result.{ok}
use orvixa.Feeds.Base.{Candle}
use orvixa.Persistence.BatchWriter
use orvixa.Persistence.SymbolIds.{Repository, IsCacheOf}
use orvixa.Persistence.Candles.{CandleSink, handle_candles}
use orvixa.Persistence.Candles.Rows.{rows_of, handle_candles_rows}

-- The database knows BTC.
abbrev get_id : Repository
get_id base = if text_beq base (codes "BTC") then ok (some 7) else ok none

abbrev candle : Text → Bool → Candle ℕ
candle symbol closed = record {
  symbol = symbol;
  ts = 60_000;
  open_price = 1;
  high = 2;
  low = 1;
  close = 2;
  volume = 10;
  quote_volume = 20;
  trades = 3;
  closed = closed;
  taker_buy_volume = 5;
}

abbrev candles : List (Candle ℕ)
candles = candle (codes "BTC") false ∷ candle (codes "BTC") true ∷ candle (codes "ETH") true ∷ []

abbrev sink : CandleSink ℕ
sink = record { symbol_ids = []; batch_writer = BatchWriter.init 10; interval = codes "1m" }

sink-IsCacheOf : IsCacheOf get_id []
unfolding lookup
sink-IsCacheOf = record { cached = λ base id e. cc }

handle_candles_rows_example :
    (handle_candles get_id candles sink).batch_writer.buffer
    ≡ sink.batch_writer.buffer ++ rows_of get_id (codes "1m") candles
handle_candles_rows_example = handle_candles_rows get_id candles sink sink-IsCacheOf
