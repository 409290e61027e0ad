-- ===== src/Feeds/Normalize/Tests.antt =====
-- Conversions of concrete arrays.
use orvixa.Prelude.{◌≡◌, refl, List, [], ◌∷◌, arith}
use orvixa.Prelude.Int.{pos}
use orvixa.Prelude.Eq.{codes}
use orvixa.Prelude.Float.Fixed.{Fixed, fixed_float, runs}
use orvixa.Prelude.Dict.{Dict, lookup}
use orvixa.Prelude.Result.{ok, raised, attribute_error}
use orvixa.Feeds.Base.{TickerRow}
use orvixa.Feeds.Symbol.{normalize_symbol}
use orvixa.Feeds.Normalize.{
  to_float, Text, lookup, Dict, Item, object, not_object, text, number, Value, row_of,
  miniticker_array_to_rows, is_skipped,
}
use orvixa.Feeds.Normalize.Rows.{IsNoText, all_converted, rows-eq-converted, rows_attribute_error}

-- `{"s": symbol, "o": "2", "c": "3", "q": 1}`
abbrev ticker_fields : Value Fixed → Dict Text (Value Fixed)
ticker_fields symbol =
    (codes "s", symbol)
    ∷ (codes "o", text (codes "2"))
    ∷ (codes "c", text (codes "3"))
    ∷ (codes "q", number (pos 10_000))
    ∷ []

abbrev ticker : Value Fixed → Item Fixed
ticker symbol = object (ticker_fields symbol)

abbrev good : List (Item Fixed)
good = ticker (text (codes "BTCUSDT")) ∷ not_object ∷ object [] ∷ []

abbrev btc_row : TickerRow Fixed
btc_row = record {
  symbol = codes "BTC";
  price = pos 30_000;
  change_pct = pos 500_000;
  quote_volume = pos 10_000;
}

good_rows : miniticker_array_to_rows good ≡ ok (btc_row ∷ [])
unfolding miniticker_array_to_rows row_of normalize_symbol runs
good_rows = refl

rows-eq-converted_example : miniticker_array_to_rows good ≡ ok (all_converted good)
unfolding row_of is_skipped normalize_symbol runs
rows-eq-converted_example =
    rows-eq-converted good ((λ e h. cc), ((λ e h. ground arith), ((λ e h. ground arith), tt)))

-- One entry whose symbol is a number.
rows_attribute_error_example :
    miniticker_array_to_rows (not_object ∷ ticker (number (pos 5)) ∷ good) ≡ raised attribute_error
unfolding row_of is_skipped lookup to_float IsNoText runs
rows_attribute_error_example =
    rows_attribute_error (not_object ∷ []) (ticker_fields (number (pos 5))) good
      ((λ e h. ground arith), tt)
      (record {
        open_value = text (codes "2");
        close_value = text (codes "3");
        symbol_value = number (pos 5);
        open_price = pos 20_000;
        last_price = pos 30_000;
        open_there = refl;
        close_there = refl;
        symbol_there = refl;
        open_converts = refl;
        close_converts = refl;
        no_text = tt;
      })
