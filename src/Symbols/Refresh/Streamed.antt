-- ===== src/Symbols/Refresh/Streamed.antt =====
-- What the feed streams after a refresh.
use orvixa.Prelude.{
  ℕ, ◌≡◌, refl, ◌∙◌, sym, true, not, ◌&&◌, ◌||◌, List, [], ◌∷◌, map, All, select, arith, inl, inr,
  Bool-cases,
}
use orvixa.Prelude.Eq.{Text, text_eq, text_beq, text_beq_iff}
use orvixa.Prelude.Dict.{Dict, lookup, insert, contains}
use orvixa.Prelude.Sets.{member_none, member, member-union, SameSet}
use orvixa.Prelude.Float.{Float}
use orvixa.Symbols.Models.{ExchangeSymbol, base_of, TickerStats, SymbolState, Settings}
use orvixa.Symbols.Listings.{active_from, rank_universe, mark_delistings, sync_listings}
use orvixa.Symbols.Listings.Listed.{stored, stored-trading}
use orvixa.Symbols.Tiers.{is_frozen, assign_one, assign_tiers}
use orvixa.Symbols.Sync.{is_watched, watchlist_pairs}
use orvixa.Symbols.Sync.Streams.{IsUpper, sync_feed_tracks}
use orvixa.Symbols.Refresh.{Manager, retiered, refresh_universe}

module _ {ℓ} {F : Type ℓ} ⦃f : Float F⦄ (active : Dict Text ExchangeSymbol) where
  -- Frozen, or with a pair that is active.
  abbrev IsFrozenOrActive : Text × SymbolState F → Type 0
  IsFrozenOrActive (_, s) = (is_frozen s.status || contains s.pair active) ≡ true

  mark_delistings-IsFrozenOrActive :
      (states : Dict Text (SymbolState F)) → All IsFrozenOrActive (mark_delistings active states).0
  unfolding mark_delistings
  mark_delistings-IsFrozenOrActive [] = tt
  mark_delistings-IsFrozenOrActive ((base, s) ∷ states) =
      elim (Bool-cases (not (contains s.pair active) && not (is_frozen s.status))) [
        | inl gone ↦ rw gone (refl, mark_delistings-IsFrozenOrActive states)
        | inr stays ↦ rw stays (ground arith, mark_delistings-IsFrozenOrActive states)
      ]

  insert-IsFrozenOrActive :
      (base : Text) (s : SymbolState F) (states : Dict Text (SymbolState F))
      → IsFrozenOrActive (base, s)
      → All IsFrozenOrActive states
      → All IsFrozenOrActive (insert base s states)
  unfolding insert
  insert-IsFrozenOrActive base s [] h hs = (h, tt)
  insert-IsFrozenOrActive base s ((key, t) ∷ states) h (h', hs) =
      elim (Bool-cases (text_beq key base)) [
        | inl same ↦ rw same (h, hs)
        | inr other ↦ rw other (h', insert-IsFrozenOrActive base s states h hs)
      ]

  sync_listings-IsFrozenOrActive :
      (tickers : Dict Text (TickerStats F)) (rank_of : Dict Text ℕ)
      (rest : Dict Text ExchangeSymbol) (states : Dict Text (SymbolState F))
      → ((pair : Text) → contains pair rest ≡ true → contains pair active ≡ true)
      → All IsFrozenOrActive states
      → All IsFrozenOrActive (sync_listings tickers rank_of rest states)
  unfolding sync_listings stored
  sync_listings-IsFrozenOrActive tickers rank_of [] states sub h = h
  sync_listings-IsFrozenOrActive tickers rank_of ((pair, es) ∷ rest) states sub h =
      let here : contains pair active ≡ true =
        sub pair (unfold lookup in ground (arith, text_beq_iff pair pair)) in
      let kept = stored-trading tickers rank_of (base_of es) pair states in
      let s = stored tickers rank_of (base_of es) pair states in
      sync_listings-IsFrozenOrActive tickers rank_of rest (insert (base_of es) s states)
        (λ p c. sub p (unfold lookup in ground arith))
        (insert-IsFrozenOrActive (base_of es) s states (ground arith) h)

  assign_one_keeps :
      (settings : Settings F) (top_n : List Text) (base : Text) (s : SymbolState F)
      (promoted : List Text)
      → let one = assign_one settings top_n base s promoted in
        (one.state.status ≡ s.status) × (one.state.pair ≡ s.pair)
  unfolding assign_one
  assign_one_keeps settings top_n base s promoted = ground arith

  assign_tiers-IsFrozenOrActive :
      (settings : Settings F) (top_n : List Text) (states : Dict Text (SymbolState F))
      (promoted : List Text)
      → All IsFrozenOrActive states
      → All IsFrozenOrActive (assign_tiers settings top_n states promoted).0
  unfolding assign_tiers
  assign_tiers-IsFrozenOrActive settings top_n [] promoted h = tt
  assign_tiers-IsFrozenOrActive settings top_n ((base, s) ∷ states) promoted (h, hs) =
      let one = assign_one settings top_n base s promoted in
      let (status, pair) = assign_one_keeps settings top_n base s promoted in
      (ground arith, assign_tiers-IsFrozenOrActive settings top_n states one.promoted hs)

  watched_active :
      (states : Dict Text (SymbolState F)) (p : Text)
      → All IsFrozenOrActive states
      → member p (map (λ e. e.1.pair) (select is_watched states)) ≡ true
      → contains p active ≡ true
  unfolding member is_watched
  watched_active [] p h m = absurd (ground arith)
  watched_active ((base, s) ∷ states) p (h, hs) m =
      ground (arith, watched_active states p hs, text_beq_iff s.pair p)

  retiered-IsFrozenOrActive :
      (settings : Settings F) (tickers : Dict Text (TickerStats F))
      (states : Dict Text (SymbolState F)) (promoted : List Text)
      → All IsFrozenOrActive (retiered settings active tickers states promoted).0
  unfolding retiered
  retiered-IsFrozenOrActive settings tickers states promoted =
      let (rank_of, top_n) = rank_universe settings active tickers in
      let marked = (mark_delistings active states).0 in
      assign_tiers-IsFrozenOrActive settings top_n (sync_listings tickers rank_of active marked)
        promoted
        (sync_listings-IsFrozenOrActive tickers rank_of active marked (λ p c. c)
          (mark_delistings-IsFrozenOrActive states))

module _ {ℓ} {F : Type ℓ} ⦃f : Float F⦄ where
  watchlist_active :
      (active : Dict Text ExchangeSymbol) (states : Dict Text (SymbolState F)) (p : Text)
      → All (IsFrozenOrActive active) states
      → member p (watchlist_pairs states) ≡ true
      → contains p active ≡ true
  unfolding watchlist_pairs
  watchlist_active active states p h m = watched_active active states p h (
      ground (
        arith,
        member-union p [] (map (λ e. e.1.pair) (select is_watched states)),
        member_none p,
        m,
      ))

  -- Where the manager's set agrees with what the feed tracks and pairs are in upper case, after a
  -- refresh the feed tracks only pairs that the exchange lists as trading.
  pub refresh_universe_streams :
      (settings : Settings F) (exchange_symbols : List ExchangeSymbol)
      (tickers : Dict Text (TickerStats F)) (m : Manager F) (p : Text)
      → SameSet m.synced.feed.symbols m.synced.subscribed
      → IsUpper m.synced.subscribed
      → IsUpper (watchlist_pairs (refresh_universe settings exchange_symbols tickers m).states)
      → member p (refresh_universe settings exchange_symbols tickers m).synced.feed.symbols ≡ true
      → contains p (active_from [] exchange_symbols) ≡ true
  unfolding refresh_universe
  refresh_universe_streams settings exchange_symbols tickers m p same us uw tracked =
      let active = active_from [] exchange_symbols in
      let states = (retiered settings active tickers m.states m.spike_promoted).0 in
      let tracks = (sync_feed_tracks states m.synced same us uw).0 in
      watchlist_active active states p
        (retiered-IsFrozenOrActive active settings tickers m.states m.spike_promoted)
        (sym (tracks p) ∙ tracked)
