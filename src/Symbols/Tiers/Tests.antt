-- ===== src/Symbols/Tiers/Tests.antt =====
-- Tier assignment on concrete states, and the properties there.
use orvixa.Prelude.{◌≡◌, refl, true, false, [], ◌∷◌, some, All}
use orvixa.Prelude.Int.{pos}
use orvixa.Prelude.Eq.{Text, codes, text_eq}
use orvixa.Prelude.Dict.{Dict, lookup}
use orvixa.Prelude.Sets.{discard, include, member}
use orvixa.Prelude.Float.Fixed.{Fixed, fixed_float, runs}
use orvixa.Symbols.Models.{
  core, alt, trading, tier_core, tier_watch, tier_rest, SymbolState, Settings, new_state,
}
use orvixa.Symbols.Tiers.{assign_one, assign_tiers, is_spiking}
use orvixa.Symbols.Tiers.Placed.{IsFrozenOrPlaced, is_ordinary, assign_tiers-IsPlaced}
use orvixa.Symbols.Tiers.Grace.{Cycle, refresh, relisted, AreCalm, rounds, demotion_after_grace}
use orvixa.Symbols.Listings.{listed_state, with_stats}
use orvixa.Symbols.Tiers.Changes.{tier_after, assign_tiers_logged}

-- The default thresholds.
abbrev settings : Settings Fixed
settings = record {
  core_set = codes "BTC" ∷ [];
  meme_set = codes "DOGE" ∷ [];
  tier1_size = 15;
  promotion_volume_multiplier = pos 30_000;
  promotion_volatility_pct = pos 80_000;
  demotion_grace_cycles = 3;
}

abbrev btc : SymbolState Fixed
btc = new_state (codes "BTC") (codes "BTCUSDT") tier_core core trading

abbrev ada : SymbolState Fixed
ada = new_state (codes "ADA") (codes "ADAUSDT") tier_watch alt trading

-- A change of 9% in 24 hours.
abbrev xrp : SymbolState Fixed
xrp = record (new_state {F = Fixed} (codes "XRP") (codes "XRPUSDT") tier_rest alt trading) {
  price_change_pct = pos 90_000;
}

abbrev states : Dict Text (SymbolState Fixed)
states = (codes "BTC", btc) ∷ (codes "ADA", ada) ∷ (codes "XRP", xrp) ∷ []

states_run : (assign_tiers settings [] states []).1 ≡ codes "XRP" ∷ []
unfolding assign_tiers assign_one new_state member include discard runs
states_run = refl

assign_tiers-IsPlaced_example :
    All
      (IsFrozenOrPlaced settings [] (assign_tiers settings [] states []).1)
      (assign_tiers settings [] states []).0
unfolding lookup
assign_tiers-IsPlaced_example =
    assign_tiers-IsPlaced settings [] states [] (refl, (refl, (refl, tt)))

assign_tiers_logged_example :
    (s' : SymbolState Fixed) × (lookup (codes "XRP") (assign_tiers settings [] states []).0
      ≡ some s')
    × (s'.tier ≡ tier_after (assign_tiers settings [] states []).2 (codes "XRP") tier_rest)
unfolding lookup new_state
assign_tiers_logged_example =
    assign_tiers_logged settings [] (codes "XRP") states [] (refl, (refl, (refl, tt))) refl

-- The figures of ADA do not move.
abbrev still : Cycle Fixed
still = record {
  pair = codes "ADAUSDT";
  stats = some (record {
    pair = codes "ADAUSDT";
    last_price = pos 10_000;
    quote_volume = pos 70_000;
    price_change_pct = pos 20_000;
    count = 500;
  });
  rank = some 40;
  top_n = [];
}

demotion_after_grace_example :
    let (s', promoted') =
      rounds settings (codes "ADA") (still ∷ still ∷ []) ada (codes "ADA" ∷ []) in
    let last = refresh settings (codes "ADA") still s' promoted' in
    (s'.tier ≡ tier_watch)
    × (member (codes "ADA") promoted' ≡ true)
    × (last.state.tier ≡ tier_rest)
    × (member (codes "ADA") last.promoted ≡ false)
unfolding new_state member assign_one is_spiking is_ordinary relisted listed_state with_stats rounds
    AreCalm runs
demotion_after_grace_example =
    demotion_after_grace settings (codes "ADA") (still ∷ still ∷ []) still ada (codes "ADA" ∷ [])
      (record { ordinary = refl; calm = refl }, (record { ordinary = refl; calm = refl }, tt))
      (record { ordinary = refl; calm = refl }) refl refl refl refl
