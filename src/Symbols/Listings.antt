-- ===== src/Symbols/Listings.antt =====
-- The universe of a refresh (src/orvixa/symbols/manager.py: `_rank_universe`, `_mark_delistings`,
-- `_sync_listings`), from what the exchange returned: its symbols, and the tickers by pair.
pub mod Listed
use orvixa.Prelude.{
  ℕ, suc, Bool, true, false, not, ◌&&◌, ◌||◌, List, [], ◌∷◌, map, Option, none, some, take, select,
  if◌then◌else◌,
}
use orvixa.Prelude.Eq.{Text, text_eq, text_beq, codes}
use orvixa.Prelude.Dict.{Dict, lookup, insert, contains}
use orvixa.Prelude.Sets.{member, union}
use orvixa.Prelude.Float.{Float}
use orvixa.Symbols.Models.{
  ExchangeSymbol, base_of, TickerStats, SymbolState, new_state, alt, trading, frozen, tier_rest,
  TierChange, Reason, delisted, Settings,
}
use orvixa.Symbols.Ranking.{rank_by_score}
use orvixa.Symbols.Tiers.{is_frozen}

-- `active` of `refresh_universe`
unfoldable pub active_from :
    Dict Text ExchangeSymbol → List ExchangeSymbol → Dict Text ExchangeSymbol
active_from active [] = active
active_from active (es ∷ rest) =
    active_from (if text_beq es.status (codes "TRADING") then insert es.pair es active else active)
      rest

module _ {ℓ} {F : Type ℓ} ⦃f : Float F⦄ where
  -- The tickers of the pairs that have one.
  unfoldable pub stats_of :
      Dict Text (TickerStats F) → Dict Text ExchangeSymbol → List (TickerStats F)
  stats_of tickers [] = []
  stats_of tickers ((pair, es) ∷ active) =
      let rest = stats_of tickers active in
      elim (lookup pair tickers) [ none ↦ rest | some stats ↦ stats ∷ rest ]

  -- `{stats.pair: i + 1 for i, (stats, _score) in enumerate(ranked)}`
  unfoldable pub ranks_from : ℕ → List (TickerStats F × F) → Dict Text ℕ → Dict Text ℕ
  ranks_from i [] ranks = ranks
  ranks_from i ((stats, _) ∷ ranked) ranks =
      ranks_from (suc i) ranked (insert stats.pair (suc i) ranks)

  -- Whether the symbol competes for a place among the first by volume.
  unfoldable pub competes : Settings F → Text × ExchangeSymbol → Bool
  unfolding base_of
  competes settings (_, es) =
      not (member (base_of es) settings.core_set) && not (member (base_of es) settings.meme_set)

  -- `rank_of` and `top_n`
  unfoldable pub rank_universe :
      Settings F → Dict Text ExchangeSymbol → Dict Text (TickerStats F) → Dict Text ℕ × List Text
  unfolding rank_by_score stats_of ranks_from competes union
  rank_universe settings active tickers =
      let ranked = rank_by_score (stats_of tickers active) in
      let alt_ranked = rank_by_score (stats_of tickers (select (competes settings) active)) in
      (ranks_from 0 ranked [], union [] (map (λ r. r.0.pair) (take settings.tier1_size alt_ranked)))

  unfoldable pub mark_delistings :
      Dict Text ExchangeSymbol
      → Dict Text (SymbolState F)
      → Dict Text (SymbolState F) × List TierChange
  mark_delistings active [] = ([], [])
  mark_delistings active ((base, s) ∷ states) =
      let (states', changes) = mark_delistings active states in
      if not (contains s.pair active) && not (is_frozen s.status)
      then (
        (base, record s { status = frozen }) ∷ states',
        record {
          base = base;
          pair = s.pair;
          from_tier = s.tier;
          to_tier = s.tier;
          reason = delisted;
        }
            ∷ changes,
      )
      else ((base, s) ∷ states', changes)

  -- The state that `_sync_listings` looks up or creates, trading.
  unfoldable pub listed_state : Text → Text → Option (SymbolState F) → SymbolState F
  unfolding new_state
  listed_state base pair none = new_state base pair tier_rest alt trading
  listed_state base pair (some s) = if is_frozen s.status then record s { status = trading } else s

  unfoldable pub with_stats : Option (TickerStats F) → SymbolState F → SymbolState F
  with_stats none s = s
  with_stats (some stats) s = record s {
    prev_quote_volume = some s.quote_volume;
    prev_count = some s.count;
    quote_volume = stats.quote_volume;
    price_change_pct = stats.price_change_pct;
    last_price = stats.last_price;
    count = stats.count;
  }

  unfoldable pub sync_listings :
      Dict Text (TickerStats F)
      → Dict Text ℕ
      → Dict Text ExchangeSymbol
      → Dict Text (SymbolState F)
      → Dict Text (SymbolState F)
  unfolding listed_state with_stats base_of
  sync_listings tickers rank_of [] states = states
  sync_listings tickers rank_of ((pair, es) ∷ active) states =
      let s = listed_state (base_of es) pair (lookup (base_of es) states) in
      let priced = with_stats (lookup pair tickers) (record s { pair = pair }) in
      let next = insert (base_of es) (record priced { rank = lookup pair rank_of }) states in
      sync_listings tickers rank_of active next
