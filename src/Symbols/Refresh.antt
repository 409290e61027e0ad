-- ===== src/Symbols/Refresh.antt =====
-- The refresh cycle (src/orvixa/symbols/manager.py: `refresh_universe`), from what the two requests to
-- the exchange returned. The rows that the cycle writes to the database are not part of the state here.
pub mod Streamed
mod Tests
use orvixa.Prelude.{ℕ, ◌+◌, List, [], ◌∷◌, ◌++◌}
use orvixa.Prelude.Eq.{Text, text_eq}
use orvixa.Prelude.Dict.{Dict}
use orvixa.Prelude.Float.{Float}
use orvixa.Symbols.Models.{ExchangeSymbol, TickerStats, SymbolState, Settings, TierChange}
use orvixa.Symbols.Listings.{active_from, rank_universe, mark_delistings, sync_listings}
use orvixa.Symbols.Tiers.{assign_tiers}
use orvixa.Symbols.Sync.{Synced, sync_feed}

-- `_states`, `_spike_promoted`, `_subscribed` with the feed, `refresh_count` and `last_tier_changes`.
pub record Manager {ℓ} (F : Type ℓ) : Type ℓ where
  pub states : Dict Text (SymbolState F)
  pub spike_promoted : List Text
  pub synced : Synced
  pub refresh_count : ℕ
  pub last_tier_changes : List TierChange

module _ {ℓ} {F : Type ℓ} ⦃f : Float F⦄ where
  -- The states, the promoted symbols and the changes of the cycle.
  unfoldable pub retiered :
      Settings F
      → Dict Text ExchangeSymbol
      → Dict Text (TickerStats F)
      → Dict Text (SymbolState F)
      → List Text
      → Dict Text (SymbolState F) × List Text × List TierChange
  unfolding rank_universe mark_delistings sync_listings assign_tiers
  retiered settings active tickers states promoted =
      let (rank_of, top_n) = rank_universe settings active tickers in
      let (marked, delistings) = mark_delistings active states in
      let listed = sync_listings tickers rank_of active marked in
      let (states', promoted', changes) = assign_tiers settings top_n listed promoted in
      (states', promoted', delistings ++ changes)

  unfoldable pub refresh_universe :
      Settings F → List ExchangeSymbol → Dict Text (TickerStats F) → Manager F → Manager F
  unfolding active_from retiered sync_feed
  refresh_universe settings exchange_symbols tickers m =
      let active = active_from [] exchange_symbols in
      let (states', promoted', changes) =
        retiered settings active tickers m.states m.spike_promoted in
      record {
        states = states';
        spike_promoted = promoted';
        synced = sync_feed states' m.synced;
        refresh_count = m.refresh_count + 1;
        last_tier_changes = changes;
      }
