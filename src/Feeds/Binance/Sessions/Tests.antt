-- ===== src/Feeds/Binance/Sessions/Tests.antt =====
-- Two sessions around a connection that fails.
use orvixa.Prelude.{◌≡◌, ◌-◌, true, List, [], ◌∷◌, map, concat, count_if}
use orvixa.Prelude.Int.{pos}
use orvixa.Prelude.Eq.{codes}
use orvixa.Prelude.Result.{ok, raised, runtime_error}
use orvixa.Prelude.Float.Fixed.{Fixed, fixed_float}
use orvixa.Feeds.Normalize.{object, text, number, truth, ToInt, ToBool}
use orvixa.Feeds.Binance.Sessions.{some, Network, Message, message, malformed, no_mapping, event}
use orvixa.Feeds.Binance.Sessions.Emitted.{
  run_sessions, fresh, emissions_of, connects, run_sessions_lem,
}

abbrev to_int : ToInt Fixed
to_int value = ok 60_000

abbrev to_bool : ToBool Fixed
to_bool value = true

abbrev kline : Message Fixed
kline = message (
    event ((codes "e", text (codes "kline")) ∷ (codes "s", text (codes "BTCUSDT")) ∷ []) (
      some (
        object (
          (codes "t", number (pos 0))
          ∷ (codes "o", text (codes "1"))
          ∷ (codes "h", text (codes "2"))
          ∷ (codes "l", text (codes "1"))
          ∷ (codes "c", text (codes "2"))
          ∷ (codes "v", text (codes "5"))
          ∷ (codes "q", text (codes "9"))
          ∷ (codes "n", number (pos 0))
          ∷ (codes "x", truth true)
          ∷ []))))

abbrev refused : Network Fixed
refused = record {
  connector = raised runtime_error;
  backfilled = ok [];
  messages = [];
  closing = ok tt;
}

-- The third message has no `get`, so the fourth is not handled.
abbrev open_session : Network Fixed
open_session = record {
  connector = ok tt;
  backfilled = raised runtime_error;
  messages = malformed ∷ kline ∷ no_mapping ∷ kline ∷ [];
  closing = ok tt;
}

abbrev sessions : List (Network Fixed)
sessions = open_session ∷ refused ∷ open_session ∷ []

run_sessions_lem_example :
    ((run_sessions to_int to_bool 5 (codes "BTCUSDT" ∷ []) sessions fresh).emitted
      ≡ concat (map (emissions_of to_int to_bool 5 (codes "BTCUSDT" ∷ [])) sessions))
    × ((run_sessions to_int to_bool 5 (codes "BTCUSDT" ∷ []) sessions fresh).connect_count ≡ 3)
    × ((run_sessions to_int to_bool 5 (codes "BTCUSDT" ∷ []) sessions fresh).resubscribe_count
        ≡ count_if (connects to_int to_bool 5 (codes "BTCUSDT" ∷ [])) sessions - 1)
run_sessions_lem_example = run_sessions_lem to_int to_bool 5 (codes "BTCUSDT" ∷ []) sessions
