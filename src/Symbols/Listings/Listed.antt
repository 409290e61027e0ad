-- ===== src/Symbols/Listings/Listed.antt =====
-- Which symbols trade after `_mark_delistings` and `_sync_listings`.
use orvixa.Prelude.{
  ℕ, ◌≡◌, refl, inl, inr, true, false, [], ◌∷◌, Option, none, some, arith, Bool-cases,
}
use orvixa.Prelude.Eq.{Text, text_eq, text_beq, text_beq_iff}
use orvixa.Prelude.Dict.{Dict, lookup, insert, contains, lookup-insert}
use orvixa.Prelude.Float.{Float}
use orvixa.Symbols.Models.{ExchangeSymbol, base_of, TickerStats, SymbolState, new_state}
use orvixa.Symbols.Tiers.{is_frozen}
use orvixa.Symbols.Listings.{mark_delistings, listed_state, with_stats, sync_listings}

module _ {ℓ} {F : Type ℓ} ⦃f : Float F⦄ where
  -- A symbol that trades has an active pair.
  abbrev pub IsListed : Dict Text ExchangeSymbol → Dict Text (SymbolState F) → Type ℓ
  IsListed active states =
      (base : Text) (s : SymbolState F)
      → lookup base states ≡ some s
      → is_frozen s.status ≡ false
      → contains s.pair active ≡ true

  mark_delistings-IsListed :
      (active : Dict Text ExchangeSymbol) (states : Dict Text (SymbolState F))
      → IsListed active (mark_delistings active states).0
  unfolding mark_delistings lookup
  mark_delistings-IsListed active [] base s l t = absurd (cc)
  mark_delistings-IsListed active ((key, s) ∷ states) base r l t =
      ground (arith, mark_delistings-IsListed active states base r)

  listed_state-trading :
      (base pair : Text) (known : Option (SymbolState F))
      → is_frozen (listed_state base pair known).status ≡ false
  unfolding listed_state new_state
  listed_state-trading base pair none = refl
  listed_state-trading base pair (some s) = ground arith

  with_stats_keeps :
      (stats : Option (TickerStats F)) (s : SymbolState F)
      → ((with_stats stats s).status ≡ s.status) × ((with_stats stats s).pair ≡ s.pair)
  unfolding with_stats
  with_stats_keeps none s = (refl, refl)
  with_stats_keeps (some stats) s = (refl, refl)

  module _ (tickers : Dict Text (TickerStats F)) (rank_of : Dict Text ℕ) where
    -- What one round stores for its symbol.
    unfoldable pub stored : Text → Text → Dict Text (SymbolState F) → SymbolState F
    stored base pair states =
        let s = listed_state base pair (lookup base states) in
        let priced = with_stats (lookup pair tickers) (record s { pair = pair }) in
        record priced { rank = lookup pair rank_of }

    pub stored-trading :
        (base pair : Text) (states : Dict Text (SymbolState F))
        → (is_frozen (stored base pair states).status ≡ false)
          × ((stored base pair states).pair ≡ pair)
    unfolding stored
    stored-trading base pair states =
        let s = listed_state base pair (lookup base states) in
        let moved : SymbolState F = record s { pair = pair } in
        let (status, kept) = with_stats_keeps (lookup pair tickers) moved in
        (rw status (listed_state-trading base pair (lookup base states)), kept)

    sync_listings-IsListed :
        (active rest : Dict Text ExchangeSymbol) (states : Dict Text (SymbolState F))
        → ((pair : Text) → contains pair rest ≡ true → contains pair active ≡ true)
        → IsListed active states
        → IsListed active (sync_listings tickers rank_of rest states)
    unfolding sync_listings stored
    sync_listings-IsListed active [] states sub listed = listed
    sync_listings-IsListed active ((pair, es) ∷ rest) states sub listed =
        let next = insert (base_of es) (stored (base_of es) pair states) states in
        let here : contains pair active ≡ true =
          sub pair (unfold lookup in ground (arith, text_beq_iff pair pair)) in
        let kept = stored-trading (base_of es) pair states in
        sync_listings-IsListed active rest next (λ p h. sub p (unfold lookup in ground arith))
          (λ base s l t. ground (
            arith,
            lookup-insert (base_of es) base (stored (base_of es) pair states) states,
            listed base s,
          ))

    -- A symbol that trades goes on trading.
    sync_listings_keeps :
        (rest : Dict Text ExchangeSymbol) (states : Dict Text (SymbolState F)) (base : Text)
        {s : SymbolState F}
        → lookup base states ≡ some s
        → is_frozen s.status ≡ false
        → (s' : SymbolState F) × (lookup base (sync_listings tickers rank_of rest states) ≡ some s')
          × (is_frozen s'.status ≡ false)
    unfolding sync_listings stored
    sync_listings_keeps [] states base {s} l t = (s, l, t)
    sync_listings_keeps ((pair, es) ∷ rest) states base {s} l t =
        let entry = stored (base_of es) pair states in
        let found = lookup-insert (base_of es) base entry states in
        let kept = stored-trading (base_of es) pair states in
        elim (Bool-cases (text_beq (base_of es) base)) [
          | inl same ↦
              sync_listings_keeps rest (insert (base_of es) entry states) base {s = entry}
                (ground arith) kept.0
          | inr other ↦
              sync_listings_keeps rest (insert (base_of es) entry states) base {s = s}
                (ground arith) t
        ]

    sync_listings-trading :
        (active : Dict Text ExchangeSymbol) (states : Dict Text (SymbolState F)) (pair : Text)
        {es : ExchangeSymbol}
        → lookup pair active ≡ some es
        → (s' : SymbolState F) × (lookup (base_of es) (sync_listings tickers rank_of active states)
            ≡ some s')
          × (is_frozen s'.status ≡ false)
    unfolding sync_listings stored lookup
    sync_listings-trading [] states pair e = absurd (cc)
    sync_listings-trading ((key, es') ∷ active) states pair {es} e =
        let entry = stored (base_of es') key states in
        let next = insert (base_of es') entry states in
        elim (Bool-cases (text_beq key pair)) [
          | inl same ↦
              let eq : es' ≡ es = ground arith in
              sync_listings_keeps active next (base_of es) {s = entry}
                (ground (
                  arith,
                  lookup-insert (base_of es') (base_of es) entry states,
                  text_beq_iff (base_of es') (base_of es),
                ))
                (stored-trading (base_of es') key states).0
          | inr other ↦ sync_listings-trading active next pair {es = es} (ground arith)
        ]

  -- After `_mark_delistings` and `_sync_listings` a symbol trades only if the exchange lists its pair as
  -- trading.
  pub listings_active :
      (active : Dict Text ExchangeSymbol) (tickers : Dict Text (TickerStats F))
      (rank_of : Dict Text ℕ) (states : Dict Text (SymbolState F)) (base : Text) (s : SymbolState F)
      → lookup base (sync_listings tickers rank_of active (mark_delistings active states).0)
        ≡ some s
      → is_frozen s.status ≡ false
      → contains s.pair active ≡ true
  listings_active active tickers rank_of states base s l t =
      let marked = (mark_delistings active states).0 in
      sync_listings-IsListed tickers rank_of active active marked (λ p h. h)
        (mark_delistings-IsListed active states) base s l t

  -- After `_mark_delistings` and `_sync_listings` the base asset's symbol of every pair that the
  -- exchange lists as trading is known and trades.
  pub listings_trading :
      (active : Dict Text ExchangeSymbol) (tickers : Dict Text (TickerStats F))
      (rank_of : Dict Text ℕ) (states : Dict Text (SymbolState F)) (pair : Text)
      (es : ExchangeSymbol)
      → lookup pair active ≡ some es
      → (s' : SymbolState F) × (lookup
            (base_of es)
            (sync_listings tickers rank_of active (mark_delistings active states).0)
          ≡ some s')
        × (is_frozen s'.status ≡ false)
  listings_trading active tickers rank_of states pair es e =
      sync_listings-trading tickers rank_of active (mark_delistings active states).0 pair {es = es}
        e
