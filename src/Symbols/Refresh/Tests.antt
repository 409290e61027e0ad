-- ===== src/Symbols/Refresh/Tests.antt =====
-- A refresh on concrete data.
use orvixa.Prelude.{◌≡◌, refl, true, List, [], ◌∷◌}
use orvixa.Prelude.Int.{pos}
use orvixa.Prelude.Eq.{Text, codes, text_eq}
use orvixa.Prelude.Dict.{contains, lookup, insert}
use orvixa.Prelude.Sets.{member, include, union, minus, discard, meet}
use orvixa.Prelude.Float.Fixed.{Fixed, fixed_float, runs}
use orvixa.Feeds.Symbol.{normalize_symbol, to_upper}
use orvixa.Feeds.Binance.{track, subscribe, unsubscribe}
use orvixa.Symbols.Models.{ExchangeSymbol, Settings, new_state, base_of, tier_rest, trading, alt}
use orvixa.Symbols.Listings.{active_from}
use orvixa.Symbols.Tiers.{assign_one}
use orvixa.Symbols.Refresh.{Manager, refresh_universe}
use orvixa.Symbols.Refresh.Streamed.{refresh_universe_streams}

abbrev settings : Settings Fixed
settings = record {
  core_set = codes "BTC" ∷ [];
  meme_set = [];
  tier1_size = 1;
  promotion_volume_multiplier = pos 30_000;
  promotion_volatility_pct = pos 80_000;
  demotion_grace_cycles = 3;
}

abbrev listed : Text → Text → ExchangeSymbol
listed pair status = record {
  pair = pair;
  base_asset = pair;
  quote_asset = codes "USDT";
  status = status;
}

-- LUNA is halted.
abbrev exchange : List ExchangeSymbol
exchange =
    listed (codes "BTCUSDT") (codes "TRADING") ∷ listed (codes "LUNAUSDT") (codes "BREAK") ∷ []

-- The feed streams LUNA from before.
abbrev manager : Manager Fixed
manager = record {
  states = (codes "LUNA", new_state (codes "LUNA") (codes "LUNAUSDT") tier_rest alt trading) ∷ [];
  spike_promoted = [];
  synced = record { subscribed = codes "LUNAUSDT" ∷ []; feed = track (codes "LUNAUSDT" ∷ []) };
  refresh_count = 0;
  last_tier_changes = [];
}

refreshed :
    (refresh_universe settings exchange [] manager).synced.feed.symbols ≡ codes "BTCUSDT" ∷ []
unfolding refresh_universe new_state lookup insert member include union minus discard meet to_upper
    normalize_symbol base_of track subscribe unsubscribe runs assign_one
refreshed = refl

refresh_universe_streams_example : contains (codes "BTCUSDT") (active_from [] exchange) ≡ true
unfolding refresh_universe new_state lookup insert member include union minus discard meet to_upper
    normalize_symbol base_of track subscribe unsubscribe runs assign_one
refresh_universe_streams_example =
    refresh_universe_streams settings exchange [] manager (codes "BTCUSDT") (λ p. refl) (refl, tt)
      (refl, tt) refl
