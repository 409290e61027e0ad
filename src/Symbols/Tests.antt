-- ===== src/Symbols/Tests.antt =====
-- The ranking, the listings, the feed's streams and the breadth on concrete data.
use mathlib.Core.List.{Perm}
use orvixa.Feeds.Symbol.{normalize_symbol, to_upper}
use orvixa.Prelude.{true, ℕ, ◌≡◌, ◌≤◌, ◌+◌, refl, false, List, [], ◌∷◌, some, length, map}
use orvixa.Prelude.Int.{pos}
use orvixa.Prelude.Eq.{Text, codes, text_eq}
use orvixa.Prelude.Dict.{contains, insert, Dict, lookup}
use orvixa.Prelude.Sets.{SameSet, member, union, include}
use orvixa.Prelude.Float.{fmin}
use orvixa.Prelude.Float.Fixed.{Fixed, fixed_float, runs}
use orvixa.Prelude.Float.Lawful.{Fixed-IsOrdered}
use orvixa.Feeds.Base.{TickerRow}
use orvixa.Feeds.Binance.{track}
use orvixa.Symbols.Models.{
  ExchangeSymbol, TickerStats, SymbolState, new_state, base_of, trading, core, alt, tier_core,
  tier_rest,
}
use orvixa.Symbols.Ranking.{compute_score, rank_by_score}
use orvixa.Symbols.Ranking.Sorted.{IsFalling, rank_by_score_lem}
use orvixa.Symbols.Listings.{mark_delistings, sync_listings}
use orvixa.Symbols.Listings.Listed.{listings_active, listings_trading}
use orvixa.Symbols.Sync.{is_watched, Synced, sync_feed, watchlist_pairs}
use orvixa.Symbols.Sync.Streams.{sync_feed_tracks}
use orvixa.Symbols.Breadth.{update}
use orvixa.Symbols.Breadth.Counted.{IsWindowed, update-counts}
use orvixa.Symbols.Tiers.{is_frozen}

abbrev ticker : Text → ℕ → TickerStats Fixed
ticker pair volume = record {
  pair = pair;
  last_price = pos 10_000;
  quote_volume = pos volume;
  price_change_pct = pos 20_000;
  count = 500;
}

abbrev stats : List (TickerStats Fixed)
stats = ticker (codes "ETHUSDT") 70_000 ∷ ticker (codes "BTCUSDT") 90_000 ∷ []

rank_by_score_lem_example :
    Perm (rank_by_score stats) (map (λ s. (s, compute_score s)) stats)
    × IsFalling (rank_by_score stats)
unfolding compute_score fmin runs
rank_by_score_lem_example = rank_by_score_lem stats Fixed-IsOrdered (refl, (refl, tt))

abbrev eth : ExchangeSymbol
eth = record {
  pair = codes "ETHUSDT";
  base_asset = codes "ETH";
  quote_asset = codes "USDT";
  status = codes "TRADING";
}

abbrev active : Dict Text ExchangeSymbol
active = (codes "ETHUSDT", eth) ∷ []

-- LUNA is no longer listed.
abbrev states : Dict Text (SymbolState Fixed)
states = (codes "LUNA", new_state (codes "LUNA") (codes "LUNAUSDT") tier_rest alt trading) ∷ []

abbrev tickers : Dict Text (TickerStats Fixed)
tickers = (codes "ETHUSDT", ticker (codes "ETHUSDT") 70_000) ∷ []

abbrev synced_states : Dict Text (SymbolState Fixed)
synced_states = sync_listings tickers [] active (mark_delistings active states).0

abbrev eth_state : SymbolState Fixed
eth_state = record (new_state {F = Fixed} (codes "ETH") (codes "ETHUSDT") tier_rest alt trading) {
  quote_volume = pos 70_000;
  price_change_pct = pos 20_000;
  last_price = pos 10_000;
  count = 500;
  prev_quote_volume = some (pos 0);
  prev_count = some 0;
}

eth_listed : lookup (codes "ETH") synced_states ≡ some eth_state
unfolding mark_delistings sync_listings new_state lookup insert base_of normalize_symbol to_upper
eth_listed = refl

listings_active_example : contains (codes "ETHUSDT") active ≡ true
unfolding new_state
listings_active_example =
    listings_active active tickers [] states (codes "ETH") eth_state eth_listed refl

listings_trading_example :
    (s' : SymbolState Fixed) × (lookup (base_of eth) synced_states ≡ some s')
    × (is_frozen s'.status ≡ false)
unfolding lookup
listings_trading_example = listings_trading active tickers [] states (codes "ETHUSDT") eth refl

abbrev watched : Dict Text (SymbolState Fixed)
watched = (codes "BTC", new_state (codes "BTC") (codes "BTCUSDT") tier_core core trading) ∷ []

-- The feed streams SOL, which is not on the watchlist.
abbrev start : Synced
start = record { subscribed = codes "SOLUSDT" ∷ []; feed = track (codes "SOLUSDT" ∷ []) }

sync_feed_tracks_example :
    SameSet (sync_feed watched start).feed.symbols (watchlist_pairs watched)
    × ((sync_feed watched start).subscribed ≡ watchlist_pairs watched)
unfolding track union include member new_state watchlist_pairs is_watched to_upper
sync_feed_tracks_example = sync_feed_tracks watched start (λ p. refl) (refl, tt) (refl, tt)

abbrev row : ℕ → ℕ → TickerRow Fixed
row price change = record {
  symbol = codes "ETHUSDT";
  price = pos price;
  change_pct = pos change;
  quote_volume = pos 0;
}

abbrev rows : List (TickerRow Fixed)
rows = row 20_000 100 ∷ row 30_000 0 ∷ []

abbrev history : Dict Text (List Fixed)
history = (codes "ETHUSDT", pos 10_000 ∷ []) ∷ []

update-counts_example :
    let b = (update {F = Fixed} 2 rows history).1 in
    (b.advancers + b.decliners + b.unchanged ≡ b.total)
    × (b.total ≡ length rows)
    × (b.new_highs ≤ b.total)
    × (b.new_lows ≤ b.total)
update-counts_example = update-counts 2 rows history

history-IsWindowed : IsWindowed {F = Fixed} 2 []
unfolding lookup
history-IsWindowed symbol prices e = absurd (cc)

prices_run :
    lookup (codes "ETHUSDT") (update {F = Fixed} 2 (row 10_000 0 ∷ rows) []).0
    ≡ some (pos 20_000 ∷ pos 30_000 ∷ [])
unfolding update lookup insert runs
prices_run = refl
