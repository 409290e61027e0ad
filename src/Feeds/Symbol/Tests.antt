-- ===== src/Feeds/Symbol/Tests.antt =====
-- Pairs from the source's comments, and the round trip at one of them.
use orvixa.Prelude.{◌≡◌, refl, ◌++◌}
use orvixa.Prelude.Eq.{codes}
use orvixa.Feeds.Symbol.{starts_with, normalize_symbol, thousand_prefix, to_upper}
use orvixa.Feeds.Symbol.RoundTrip.{normalize_symbol-pair}

normalize_symbol_runs :
    (normalize_symbol (codes "BTCUSDT") ≡ codes "BTC")
    × (normalize_symbol (codes "1000pepeusdt") ≡ codes "PEPE")
    × (normalize_symbol (codes "USDT") ≡ codes "USDT")
    × (normalize_symbol (codes "1000") ≡ codes "1000")
unfolding normalize_symbol
normalize_symbol_runs = (refl, refl, refl, refl)

normalize_symbol-pair_example :
    (normalize_symbol (codes "PEPE" ++ codes "USDT") ≡ codes "PEPE")
    × (normalize_symbol (thousand_prefix ++ codes "PEPE" ++ codes "USDT") ≡ codes "PEPE")
unfolding to_upper starts_with
normalize_symbol-pair_example = normalize_symbol-pair (codes "PEPE") refl (λ e. cc) refl
