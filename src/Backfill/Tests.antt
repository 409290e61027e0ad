-- ===== src/Backfill/Tests.antt =====
-- The loader on a file of three rows.
use orvixa.Prelude.{◌≡◌, refl, List, [], ◌∷◌, none, arith}
use orvixa.Prelude.Eq.{Text, text_eq, codes}
use orvixa.Prelude.Dict.{Dict, lookup}
use orvixa.Prelude.Result.{ok}
use orvixa.Prelude.Float.Fixed.{Fixed, fixed_float, runs}
use orvixa.Backtest.Replay.{number_of}
use orvixa.Backfill.{Refusal, Parsers, row_to_candle_row, load_rows}
use orvixa.Backfill.Batches.{converted, Refines, load_rows-Refines}

abbrev parsers : Parsers
parsers = record { fromisoformat = λ _. none; int = λ text. number_of text }

abbrev row : Text → Dict Text Text
row ts =
    (codes "ts", ts)
    ∷ (codes "open", codes "1")
    ∷ (codes "high", codes "2")
    ∷ (codes "low", codes "1")
    ∷ (codes "close", codes "2")
    ∷ (codes "volume", codes "5")
    ∷ (codes "quote_volume", codes "9")
    ∷ (codes "trades", codes "3")
    ∷ (codes "taker_buy_volume", codes "4")
    ∷ []

abbrev file : List (Dict Text Text)
file = row (codes "60000") ∷ row (codes "120000") ∷ row (codes "180000") ∷ []

-- No batch is refused.
abbrev accepted : Refusal Fixed
accepted batch = none

load_runs :
    (load_rows {F = Fixed} accepted 2 (row_to_candle_row parsers 7 (codes "1m")) file 0 [] []).0
    ≡ ok 3
unfolding load_rows row_to_candle_row lookup runs
load_runs = refl

load_rows-Refines_example :
    Refines {F = Fixed} accepted 2
      (row_to_candle_row parsers 7 (codes "1m"))
      []
      (converted {F = Fixed} accepted 2 (row_to_candle_row parsers 7 (codes "1m")) file)
      (load_rows accepted 2 (row_to_candle_row parsers 7 (codes "1m")) file 0 [] [])
load_rows-Refines_example =
    load_rows-Refines accepted 2 (row_to_candle_row parsers 7 (codes "1m")) file (omega arith)
