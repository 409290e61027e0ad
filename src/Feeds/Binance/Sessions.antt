-- ===== src/Feeds/Binance/Sessions.antt =====
-- A session of `BinanceFeed` (src/orvixa/feeds/binance.py: `_combined_url`, `_connect_once`,
-- `_handle_message`, `_gap_fill`, `_default_backfiller`). What the connector, the socket and the HTTP
-- client give is an argument; what is handed to the callbacks is logged, in order.
pub mod Emitted
mod Tests
use orvixa.Prelude.{
  ℕ, ◌+◌, Bool, true, false, ◌==◌, List, [], ◌∷◌, ◌++◌, map, Option, none, some, if◌then◌else◌,
}
use orvixa.Prelude.Eq.{Text, codes, text_eq, text_beq}
use orvixa.Prelude.Dict.{Dict, lookup}
use orvixa.Prelude.Result.{Result, ok, raised, key_error, attribute_error, or_raise, ◌>>=◌}
use orvixa.Prelude.Float.{Float}
use orvixa.Feeds.Base.{Candle, TickerRow}
use orvixa.Feeds.Binance.{streams_for}
use orvixa.Feeds.Normalize.{
  Value, text, Item, object, ToInt, ToBool, kline_to_candle, rest_kline_to_candle,
  miniticker_array_to_rows,
}

-- What `_handle_message` looks at: a text that is no JSON, a value without `get`, or the value at "data",
-- or else the message itself.
pub data Data {ℓ} (F : Type ℓ) : Type ℓ where
  array : List (Item F) → Data F
  -- An object: its plain fields, and the value at "k", where there is one.
  event : Dict Text (Value F) → Option (Item F) → Data F
  scalar : Data F

pub data Message {ℓ} (F : Type ℓ) : Type ℓ where
  malformed no_mapping : Message F
  message : Data F → Message F

-- What goes to the callbacks: `_emit_candle` and `_emit_snapshot`.
pub data Emission {ℓ} (F : Type ℓ) : Type ℓ where
  candle : Candle F → Emission F
  snapshot : List (TickerRow F) → Emission F

-- `'/'.join(texts)`
unfoldable pub join_slash : List Text → Text
join_slash [] = []
join_slash (t ∷ []) = t
join_slash (t ∷ u ∷ texts) = t ++ codes "/" ++ join_slash (u ∷ texts)

-- The URL for the tracked pairs in order.
unfoldable pub combined_url : Text → Text → List Text → Text
unfolding join_slash streams_for
combined_url ws_base interval symbols =
    ws_base
    ++ codes "/stream?streams="
    ++ join_slash (streams_for interval symbols ++ codes "!miniTicker@arr" ∷ [])

unfoldable pub is_kline {ℓ} : {F : Type ℓ} → Dict Text (Value F) → Bool
unfolding lookup
is_kline d = elim (lookup (codes "e") d) [
  | none ↦ false
  | some v ↦ elim v [ text t ↦ text_beq t (codes "kline") | _ ↦ false ]
]

-- `backfill_limit`, and the counters of the feed with what it has emitted.
pub record Connection {ℓ} (F : Type ℓ) : Type ℓ where
  pub connect_count : ℕ
  pub resubscribe_count : ℕ
  pub gapfill_count : ℕ
  pub had_session : Bool
  pub emitted : List (Emission F)

-- What the network does in a session: whether the connector returns, what the backfiller gives, and the
-- messages, with the exception of the socket after them, if there is one.
pub record Network {ℓ} (F : Type ℓ) : Type ℓ where
  pub connector : Result (Unit {0})
  pub backfilled : Result (List (Candle F))
  pub messages : List (Message F)
  pub closing : Result (Unit {0})

module _ {ℓ} {F : Type ℓ} ⦃f : Float F⦄ (to_int : ToInt F) (to_bool : ToBool F) where
  -- `if rows: await self._emit_snapshot(rows)`
  emission_of : List (TickerRow F) → List (Emission F)
  emission_of [] = []
  emission_of (row ∷ rows) = snapshot (row ∷ rows) ∷ []

  unfoldable pub handle_message : Message F → Result (List (Emission F))
  unfolding is_kline miniticker_array_to_rows kline_to_candle emission_of
  handle_message malformed = ok []
  handle_message no_mapping = raised attribute_error
  handle_message (message (array items)) = do
    rows ← miniticker_array_to_rows items
    ok (emission_of rows)
  handle_message (message (event d k)) =
      if is_kline d
      then (or_raise key_error k >>= λ inner.
          kline_to_candle to_int to_bool (object d) inner >>= λ c. ok (candle c ∷ []))
      else ok []
  handle_message (message scalar) = ok []

  -- The loop over the messages: what is emitted, and how it ends.
  unfoldable pub handle_messages :
      List (Message F) → Result (Unit {0}) → Result (Unit {0}) × List (Emission F)
  unfolding handle_message
  handle_messages [] closing = (closing, [])
  handle_messages (m ∷ messages) closing =
      let (end, later) = handle_messages messages closing in
      elim (handle_message m) [ raised x ↦ (raised x, []) | ok out ↦ (end, out ++ later) ]

  -- `_gap_fill`, whose callbacks do not raise (`_fan_out` logs what they raise).
  unfoldable pub gap_fill : ℕ → List Text → Result (List (Candle F)) → Connection F → Connection F
  gap_fill backfill_limit [] backfilled c = c
  gap_fill backfill_limit (s ∷ symbols) (raised x) c = c
  gap_fill backfill_limit (s ∷ symbols) (ok candles) c =
      if backfill_limit == 0 then c else record c {
        gapfill_count = c.gapfill_count + 1;
        emitted = c.emitted ++ map candle candles;
      }

  -- The counter of reconnects and `_had_session`.
  unfoldable pub mark_session : Connection F → Connection F
  mark_session c = record c {
    resubscribe_count = if c.had_session then c.resubscribe_count + 1 else c.resubscribe_count;
    had_session = true;
  }

  -- From the socket on.
  unfoldable pub connected :
      ℕ → List Text → Network F → Connection F → Result (Unit {0}) × Connection F
  unfolding gap_fill mark_session handle_messages
  connected backfill_limit symbols n c =
      let marked = mark_session (gap_fill backfill_limit symbols n.backfilled c) in
      let (end, out) = handle_messages n.messages n.closing in
      (end, record marked { emitted = marked.emitted ++ out })

  unfoldable pub connect_once :
      ℕ → List Text → Network F → Connection F → Result (Unit {0}) × Connection F
  unfolding connected
  connect_once backfill_limit symbols n c =
      let counted : Connection F = record c { connect_count = c.connect_count + 1 } in
      elim n.connector [
        | raised x ↦ (raised x, counted)
        | ok _ ↦ connected backfill_limit symbols n counted
      ]

  -- The rows of a pair that convert before the first that raises.
  unfoldable pub converted_rows : Text → List (List (Value F)) → List (Candle F)
  unfolding rest_kline_to_candle
  converted_rows pair [] = []
  converted_rows pair (row ∷ rows) =
      let rest = converted_rows pair rows in
      elim (rest_kline_to_candle to_int to_bool pair row) [ raised x ↦ [] | ok c ↦ c ∷ rest ]

  -- `_default_backfiller`: a request that raises, or whose rows do, is skipped from there on.
  unfoldable pub default_backfiller :
      (Text → Result (List (List (Value F)))) → List Text → List (Candle F)
  unfolding converted_rows
  default_backfiller get [] = []
  default_backfiller get (pair ∷ symbols) =
      let rest = default_backfiller get symbols in
      elim (get pair) [ raised x ↦ rest | ok rows ↦ converted_rows pair rows ++ rest ]
