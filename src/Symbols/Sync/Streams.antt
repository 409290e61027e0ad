-- ===== src/Symbols/Sync/Streams.antt =====
-- What the feed tracks after `_sync_feed`.
use orvixa.Prelude.{◌≡◌, refl, false, not, ◌&&◌, ◌||◌, List, [], ◌∷◌, All, arith}
use orvixa.Prelude.Eq.{Text, text_eq}
use orvixa.Prelude.Dict.{Dict}
use orvixa.Prelude.Sets.{member, minus, member-minus, SameSet}
use orvixa.Symbols.Models.{SymbolState}
use orvixa.Feeds.Symbol.{upper}
use orvixa.Feeds.Binance.{Subscriptions, upper_all}
use orvixa.Feeds.Binance.Tracking.{member-subscribe, member-unsubscribe}
use orvixa.Symbols.Sync.{Synced, watchlist_pairs, subscribe_if_any, unsubscribe_if_any, sync_feed}

-- Upper case, as the pairs of the exchange are.
abbrev pub IsUpper : List Text → Type 0
IsUpper = All (λ p. upper p ≡ p)

upper_all-minus : (s t : List Text) → IsUpper s → upper_all (minus s t) ≡ minus s t
unfolding minus
upper_all-minus [] t h = refl
upper_all-minus (p ∷ s) t (e, h) = ground (arith, upper_all-minus s t h)

member_none : (p : Text) → member p [] ≡ false
unfolding member
member_none p = refl

member-subscribe_if_any :
    (p : Text) (new : List Text) (feed : Subscriptions)
    → member p (subscribe_if_any new feed).symbols
      ≡ (member p feed.symbols || member p (upper_all new))
unfolding subscribe_if_any
member-subscribe_if_any p [] feed = ground (arith, member_none p)
member-subscribe_if_any p (q ∷ new) feed = member-subscribe p (q ∷ new) feed

member-unsubscribe_if_any :
    (p : Text) (dropped : List Text) (feed : Subscriptions)
    → member p (unsubscribe_if_any dropped feed).symbols
      ≡ (member p feed.symbols && not (member p (upper_all dropped)))
unfolding unsubscribe_if_any
member-unsubscribe_if_any p [] feed = ground (arith, member_none p)
member-unsubscribe_if_any p (q ∷ dropped) feed = member-unsubscribe p (q ∷ dropped) feed

-- Where the manager's set agrees with what the feed tracks and pairs are in upper case, as when it
-- starts, after `_sync_feed` the feed tracks the pairs of the watchlist and no others, and the
-- manager's set agrees with it again.
pub sync_feed_tracks {ℓ} :
    {F : Type ℓ} (states : Dict Text (SymbolState F)) (m : Synced)
    → SameSet m.feed.symbols m.subscribed
    → IsUpper m.subscribed
    → IsUpper (watchlist_pairs states)
    → SameSet (sync_feed states m).feed.symbols (watchlist_pairs states)
      × ((sync_feed states m).subscribed ≡ watchlist_pairs states)
unfolding sync_feed
sync_feed_tracks states m same us uw =
    let pairs = watchlist_pairs states in
    let new = minus pairs m.subscribed in
    let dropped = minus m.subscribed pairs in
    (
      λ p. ground (
        arith,
        same p,
        member-unsubscribe_if_any p dropped (subscribe_if_any new m.feed),
        member-subscribe_if_any p new m.feed,
        upper_all-minus pairs m.subscribed uw,
        upper_all-minus m.subscribed pairs us,
        member-minus p pairs m.subscribed,
        member-minus p m.subscribed pairs,
      ),
      refl,
    )
