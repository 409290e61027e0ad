-- ===== src/Symbols/Sync.antt =====
-- The watchlist's streams (src/orvixa/symbols/manager.py: `_sync_feed`), over the feed's set of pairs.
pub mod Streams
use orvixa.Prelude.{
  ℕ, Bool, true, false, not, ◌&&◌, ◌||◌, ◌==◌, List, [], ◌∷◌, map, select, if◌then◌else◌,
}
use orvixa.Prelude.Eq.{Text, text_eq}
use orvixa.Prelude.Dict.{Dict}
use orvixa.Prelude.Sets.{union, minus}
use orvixa.Symbols.Models.{SymbolState, tier_core, tier_watch}
use orvixa.Symbols.Tiers.{is_frozen}
use orvixa.Feeds.Binance.{Subscriptions, subscribe, unsubscribe}

-- `_subscribed`, and the feed.
pub record Synced : Type 0 where
  pub subscribed : List Text
  pub feed : Subscriptions

module _ {ℓ} {F : Type ℓ} where
  -- Whether a state is streamed.
  unfoldable pub is_watched : Text × SymbolState F → Bool
  is_watched (_, s) = ((s.tier == tier_core) || (s.tier == tier_watch)) && not (is_frozen s.status)

  unfoldable pub watchlist_pairs : Dict Text (SymbolState F) → List Text
  unfolding union is_watched
  watchlist_pairs states = union [] (map (λ e. e.1.pair) (select is_watched states))

subscribe_if_any : List Text → Subscriptions → Subscriptions
subscribe_if_any [] feed = feed
subscribe_if_any (p ∷ new) feed = subscribe (p ∷ new) feed

unsubscribe_if_any : List Text → Subscriptions → Subscriptions
unsubscribe_if_any [] feed = feed
unsubscribe_if_any (p ∷ dropped) feed = unsubscribe (p ∷ dropped) feed

unfoldable pub sync_feed {ℓ} : {F : Type ℓ} → Dict Text (SymbolState F) → Synced → Synced
unfolding watchlist_pairs subscribe_if_any unsubscribe_if_any minus subscribe unsubscribe
sync_feed states m =
    let pairs = watchlist_pairs states in
    let new = minus pairs m.subscribed in
    let dropped = minus m.subscribed pairs in
    record { subscribed = pairs; feed = unsubscribe_if_any dropped (subscribe_if_any new m.feed) }
