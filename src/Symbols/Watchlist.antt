-- ===== src/Symbols/Watchlist.antt =====
-- The watchlist (src/orvixa/symbols/watchlist.py, and `get_watchlist` of
-- src/orvixa/symbols/manager.py).
use orvixa.Prelude.{
  ℕ, Bool, not, ◌||◌, ◌==◌, List, [], ◌∷◌, map, Option, none, some, select, if◌then◌else◌,
}
use orvixa.Prelude.Eq.{Text, codes, text_beq}
use orvixa.Prelude.Dict.{Dict}
use orvixa.Prelude.Result.{Result, ok, raised, value_error}
use orvixa.Prelude.Float.{Float}
use orvixa.Symbols.Models.{SymbolState, Klass, Status, Tag}
use orvixa.Symbols.Tiers.{is_frozen}
use orvixa.Symbols.Ranking.{sort_from}

pub record RankedSymbol {ℓ} (F : Type ℓ) : Type ℓ where
  pub base : Text
  pub pair : Text
  pub tier : ℕ
  pub class_ : Klass
  pub status : Status
  pub rank : Option ℕ
  pub quote_volume : F
  pub price_change_pct : F
  pub last_price : F
  pub tags : List Tag

module _ {ℓ} {F : Type ℓ} where
  unfoldable pub build_watchlist : List (RankedSymbol F) → List (RankedSymbol F)
  build_watchlist = select (λ r. (r.tier == 0) || (r.tier == 1))

  -- A row of `get_watchlist`; the order of the tags is the one of the state.
  unfoldable pub ranked_of : SymbolState F → RankedSymbol F
  ranked_of s = record {
    base = s.base;
    pair = s.pair;
    tier = s.tier;
    class_ = s.class_;
    status = s.status;
    rank = s.rank;
    quote_volume = s.quote_volume;
    price_change_pct = s.price_change_pct;
    last_price = s.last_price;
    tags = s.tags;
  }

module _ {ℓ} {F : Type ℓ} ⦃f : Float F⦄ where
  -- `_SORT_KEYS.get(sort_by)`
  unfoldable pub sort_key : Text → Option (RankedSymbol F → F)
  sort_key sort_by =
      if text_beq sort_by (codes "volume")
      then some (λ r. r.quote_volume)
      else if text_beq sort_by (codes "volatility")
      then some (λ r. f.abs r.price_change_pct)
      else if text_beq sort_by (codes "change")
      then some (λ r. r.price_change_pct)
      else none

  -- The stable ascending sort.
  place_up : RankedSymbol F × F → List (RankedSymbol F × F) → List (RankedSymbol F × F)
  place_up x [] = x ∷ []
  place_up x (y ∷ ys) = let rest = place_up x ys in if f.lt x.1 y.1 then x ∷ y ∷ ys else y ∷ rest

  sort_up : List (RankedSymbol F × F) → List (RankedSymbol F × F) → List (RankedSymbol F × F)
  unfolding place_up
  sort_up sorted [] = sorted
  sort_up sorted (x ∷ xs) = sort_up (place_up x sorted) xs

  unfoldable pub sort_watchlist :
      List (RankedSymbol F) → Text → Bool → Result (List (RankedSymbol F))
  unfolding sort_key sort_from sort_up
  sort_watchlist symbols sort_by descending = elim (sort_key sort_by) [
    | none ↦ raised value_error
    | some key ↦
        let keyed : List (RankedSymbol F × F) = map (λ r. (r, key r)) symbols in
        ok (map (λ x. x.0) (if descending then sort_from [] keyed else sort_up [] keyed))
  ]

  unfoldable pub get_watchlist : Dict Text (SymbolState F) → Text → Result (List (RankedSymbol F))
  unfolding build_watchlist sort_watchlist ranked_of
  get_watchlist states sort_by =
      let trading_states = select (λ e. not (is_frozen e.1.status)) states in
      sort_watchlist (build_watchlist (map (λ e. ranked_of e.1) trading_states)) sort_by Bool.true
