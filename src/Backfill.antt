-- ===== src/Backfill.antt =====
-- The loader of historical candles (src/orvixa/backfill/csv_loader.py). A row of the file is a dict of
-- texts; what `datetime.fromisoformat` makes of a text, as epoch milliseconds, is an argument, and so is
-- what the database answers.
pub mod Batches
mod Tests
use orvixa.Prelude.{ℕ, ◌+◌, List, [], ◌∷◌, ◌++◌, Option, none, some, length, leb, if◌then◌else◌}
use orvixa.Prelude.Eq.{Text, text_eq, codes}
use orvixa.Prelude.Dict.{Dict, lookup}
use orvixa.Prelude.Result.{Error, Result, ok, raised, key_error, value_error, or_raise, ◌>>=◌}
use orvixa.Prelude.Float.{Float}
use orvixa.Persistence.Candles.{CandleRow}
use orvixa.Persistence.SymbolIds.{Repository}
use orvixa.Backtest.Replay.{number_of}

-- The parsers of the standard library, of a text: `datetime.fromisoformat` and `int`.
pub record Parsers : Type 0 where
  pub fromisoformat : Text → Option ℕ
  pub int : Text → Option ℕ

-- `_parse_ts`, for epochs that are not negative.
unfoldable pub parse_ts : Parsers → Text → Result ℕ
unfolding number_of
parse_ts parsers value = elim (number_of value) [
  | some ms ↦ ok ms
  | none ↦ or_raise value_error (parsers.fromisoformat value)
]

-- `row[key]`, converted.
cell {ℓ} : {A : Type ℓ} → (Text → Option A) → Dict Text Text → Text → Result A
cell parse row key = do
  value ← or_raise key_error (lookup key row)
  or_raise value_error (parse value)

-- How a load ends, and the batches that were inserted by then.
abbrev pub Load {ℓ} : Type ℓ → Type ℓ
Load F = Result ℕ × List (List (CandleRow F))

-- What `insert_batch` raises for a batch, and none where it inserts the batch and returns its length.
abbrev pub Refusal {ℓ} : Type ℓ → Type ℓ
Refusal F = List (CandleRow F) → Option Error

module _ {ℓ} {F : Type ℓ} (refusal : Refusal F) where
  -- The last, partial batch.
  unfoldable pub insert_rest : ℕ → List (CandleRow F) → List (List (CandleRow F)) → Load F
  insert_rest written [] inserted = (ok written, inserted)
  insert_rest written (r ∷ batch) inserted = elim (refusal (r ∷ batch)) [
    | some x ↦ (raised x, inserted)
    | none ↦ (ok (written + length (r ∷ batch)), inserted ++ (r ∷ batch) ∷ [])
  ]

  -- The loop over the rows of the file.
  unfoldable pub load_rows :
      ℕ
      → (Dict Text Text → Result (CandleRow F))
      → List (Dict Text Text)
      → ℕ
      → List (CandleRow F)
      → List (List (CandleRow F))
      → Load F
  unfolding insert_rest
  load_rows batch_size convert [] written batch inserted = insert_rest written batch inserted
  load_rows batch_size convert (row ∷ rows) written batch inserted = elim (convert row) [
    | raised x ↦ (raised x, inserted)
    | ok r ↦
        let grown = batch ++ r ∷ [] in
        let next =
          load_rows batch_size convert rows (written + length grown) [] (inserted ++ grown ∷ []) in
        let full : Load F = elim (refusal grown) [ some x ↦ (raised x, inserted) | none ↦ next ] in
        let partial = load_rows batch_size convert rows written grown inserted in
        if leb batch_size (length grown) then full else partial
  ]

module _ {ℓ} {F : Type ℓ} ⦃f : Float F⦄ (parsers : Parsers) where
  unfoldable pub row_to_candle_row : ℕ → Text → Dict Text Text → Result (CandleRow F)
  unfolding parse_ts cell
  row_to_candle_row symbol_id interval row = do
    ts ← or_raise key_error (lookup (codes "ts") row) >>= parse_ts parsers
    open_price ← cell f.parse row (codes "open")
    high ← cell f.parse row (codes "high")
    low ← cell f.parse row (codes "low")
    close ← cell f.parse row (codes "close")
    volume ← cell f.parse row (codes "volume")
    quote_volume ← cell f.parse row (codes "quote_volume")
    trades ← cell parsers.int row (codes "trades")
    taker_buy_volume ← cell f.parse row (codes "taker_buy_volume")
    ok (record {
      symbol_id = symbol_id;
      ts = ts;
      open_price = open_price;
      high = high;
      low = low;
      close = close;
      volume = volume;
      quote_volume = quote_volume;
      trades = trades;
      taker_buy_volume = taker_buy_volume;
      interval = interval;
    })

  unfoldable pub load_candles_csv :
      Refusal F → Repository → Text → List (Dict Text Text) → Text → ℕ → Load F
  unfolding load_rows row_to_candle_row
  load_candles_csv refusal get_id base rows interval batch_size = elim (get_id base) [
    | raised x ↦ (raised x, [])
    | ok id ↦ elim id [
      | none ↦ (raised value_error, [])
      | some symbol_id ↦
          load_rows refusal batch_size (row_to_candle_row symbol_id interval) rows 0 [] []
    ]
  ]
