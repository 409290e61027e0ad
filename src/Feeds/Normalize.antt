-- ===== src/Feeds/Normalize.antt =====
-- The payload conversions of src/orvixa/feeds/normalize.py: a payload is a value of `json.loads`.
pub mod Rows
mod Tests
use orvixa.Prelude.{
  get_elem?, ℕ, ◌≡◌, Bool, true, false, not, List, [], ◌∷◌, Option, none, some, if◌then◌else◌,
}
use orvixa.Prelude.Eq.{Text, codes, text_eq}
use orvixa.Prelude.Dict.{Dict, lookup, contains}
use orvixa.Prelude.Float.{Float, nought}
use orvixa.Prelude.Result.{
  Error, key_error, index_error, value_error, type_error, attribute_error, Result, ok, raised,
  ◌>>=◌, or_raise,
}
use orvixa.Feeds.Base.{Candle, TickerRow}
use orvixa.Feeds.Symbol.{normalize_symbol}

-- A JSON value, as far as the conversions look into it: `other` is null or a container.
pub data Value {ℓ} (F : Type ℓ) : Type ℓ where
  text : Text → Value F
  number : F → Value F
  truth : Bool → Value F
  other : Value F

-- An element of the ticker array: an object, or something that a string does not index.
pub data Item {ℓ} (F : Type ℓ) : Type ℓ where
  object : Dict Text (Value F) → Item F
  not_object : Item F

-- The exceptions of the `except` clause.
unfoldable pub is_skipped : Error → Bool
is_skipped key_error = true
is_skipped value_error = true
is_skipped type_error = true
is_skipped _ = false

module _ {ℓ} {F : Type ℓ} ⦃f : Float F⦄ where
  -- `item[key]`
  unfoldable pub field : Item F → Text → Result (Value F)
  unfolding lookup
  field (object d) key = or_raise key_error (lookup key d)
  field not_object key = raised type_error

  -- `float(value)`
  unfoldable pub to_float : Value F → Result F
  to_float (text t) = or_raise value_error (f.parse t)
  to_float (number x) = ok x
  to_float (truth true) = ok (f.lit 1 1)
  to_float (truth false) = ok nought
  to_float other = raised type_error

  -- `normalize_symbol` calls `.upper()`, which only a text has.
  unfoldable pub to_symbol : Value F → Result Text
  to_symbol (text t) = ok (normalize_symbol t)
  to_symbol _ = raised attribute_error

  -- The 24h change: `if open_price` is false at 0.0.
  unfoldable pub change_of : F → F → F
  change_of open_price last_price =
      if f.eq open_price nought
      then nought
      else f.mul (f.div (f.sub last_price open_price) open_price) (f.lit 100 1)

  -- The body of the `try`, for one element.
  unfoldable pub row_of : Item F → Result (TickerRow F)
  unfolding field to_float to_symbol change_of
  row_of item = do
    open_price ← field item (codes "o") >>= to_float
    last_price ← field item (codes "c") >>= to_float
    symbol ← field item (codes "s") >>= to_symbol
    quote_volume ← field item (codes "q") >>= to_float
    ok (record {
      symbol = symbol;
      price = last_price;
      change_pct = change_of open_price last_price;
      quote_volume = quote_volume;
    })

  prepend : Result (TickerRow F) → Result (List (TickerRow F)) → Result (List (TickerRow F))
  unfolding is_skipped
  prepend (ok row) rest = rest >>= λ rows. ok (row ∷ rows)
  prepend (raised e) rest = if is_skipped e then rest else raised e

  unfoldable pub miniticker_array_to_rows : List (Item F) → Result (List (TickerRow F))
  unfolding prepend
  miniticker_array_to_rows [] = ok []
  miniticker_array_to_rows (item ∷ items) = prepend (row_of item) (miniticker_array_to_rows items)

-- What `int(…)` makes of a value, a parameter: `json.loads` keeps an integer apart from a float.
abbrev pub ToInt {ℓ} : Type ℓ → Type ℓ
ToInt F = Value F → Result ℕ

-- `bool(…)`, for a value whose truth is a parameter.
abbrev pub ToBool {ℓ} : Type ℓ → Type ℓ
ToBool F = Value F → Bool

module _ {ℓ} {F : Type ℓ} ⦃f : Float F⦄ (to_int : ToInt F) (to_bool : ToBool F) where
  -- `float(k.get("V", 0.0))`
  taker_volume : Item F → Result F
  unfolding to_float lookup
  taker_volume (object d) = elim (lookup (codes "V") d) [ none ↦ ok nought | some v ↦ to_float v ]
  taker_volume not_object = raised attribute_error

  -- `kline_event_to_candle`, for the objects `data`, here `event`, and `data["k"]`.
  unfoldable pub kline_to_candle : Item F → Item F → Result (Candle F)
  unfolding field to_float to_symbol taker_volume
  kline_to_candle event k = do
    symbol ← field event (codes "s") >>= to_symbol
    ts ← field k (codes "t") >>= to_int
    open_price ← field k (codes "o") >>= to_float
    high ← field k (codes "h") >>= to_float
    low ← field k (codes "l") >>= to_float
    close ← field k (codes "c") >>= to_float
    volume ← field k (codes "v") >>= to_float
    quote_volume ← field k (codes "q") >>= to_float
    trades ← field k (codes "n") >>= to_int
    closed ← field k (codes "x")
    taker_buy_volume ← taker_volume k
    ok (record {
      symbol = symbol;
      ts = ts;
      open_price = open_price;
      high = high;
      low = low;
      close = close;
      volume = volume;
      quote_volume = quote_volume;
      trades = trades;
      closed = to_bool closed;
      taker_buy_volume = taker_buy_volume;
    })

  -- `row[i]`
  unfoldable pub element_at : List (Value F) → ℕ → Result (Value F)
  element_at row i = or_raise index_error (get_elem? row i)

  unfoldable pub rest_kline_to_candle : Text → List (Value F) → Result (Candle F)
  unfolding element_at to_float normalize_symbol
  rest_kline_to_candle pair row = do
    ts ← element_at row 0 >>= to_int
    open_price ← element_at row 1 >>= to_float
    high ← element_at row 2 >>= to_float
    low ← element_at row 3 >>= to_float
    close ← element_at row 4 >>= to_float
    volume ← element_at row 5 >>= to_float
    quote_volume ← element_at row 7 >>= to_float
    trades ← element_at row 8 >>= to_int
    taker_buy_volume ← element_at row 9 >>= to_float
    ok (record {
      symbol = normalize_symbol pair;
      ts = ts;
      open_price = open_price;
      high = high;
      low = low;
      close = close;
      volume = volume;
      quote_volume = quote_volume;
      trades = trades;
      closed = true;
      taker_buy_volume = taker_buy_volume;
    })
