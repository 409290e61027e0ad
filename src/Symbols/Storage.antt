-- ===== src/Symbols/Storage.antt =====
-- What the symbol manager writes to the database and reads back at its start (src/orvixa/symbols/manager.py:
-- `_load_existing`, `_persist`, `_persist_tier_changes`, `_persist_metrics_snapshots`,
-- `_persist_breadth_snapshot`), and the rows of the configured symbols (src/orvixa/persistence/registry.py).
-- The order of the tags is the one of the state.
pub mod Restored
mod Tests
use orvixa.Prelude.{
  ℕ, ◌-◌, Bool, true, false, List, [], ◌∷◌, ◌++◌, map, Option, none, some, length, ltb,
  if◌then◌else◌,
}
use orvixa.Prelude.Eq.{Text, text_eq, codes}
use orvixa.Prelude.Dict.{Dict, insert, lookup}
use orvixa.Prelude.Sets.{include, member, union}
use orvixa.Prelude.Result.{Result, ok, raised, ◌>>=◌}
use orvixa.Prelude.Float.{Float, nought, of_ℕ}
use orvixa.Persistence.SymbolIds.{Repository}
use orvixa.Feeds.Symbol.{upper, normalize_symbol}
use orvixa.Symbols.Breadth.{BreadthSnapshot}
use orvixa.Symbols.Models.{
  Klass, core, alt, meme, Status, trading, Tag, klass, spike, SymbolState, new_state, TierChange,
  Reason,
}

-- A row of `symbols`, with the rank that `update_ranking` writes. The field `class_` is the source's
-- `klass`.
pub record SymbolRow : Type 0 where
  pub symbol : Text
  pub base : Text
  pub class_ : Klass
  pub tier : ℕ
  pub status : Status
  pub tags : List Tag
  pub rank : Option ℕ

pub record TierChangeRow : Type 0 where
  pub symbol_id : ℕ
  pub ts : ℕ
  pub from_tier : ℕ
  pub to_tier : ℕ
  pub reason : Reason

pub record SymbolMetricsSnapshotRow {ℓ} (F : Type ℓ) : Type ℓ where
  pub symbol_id : ℕ
  pub ts : ℕ
  pub tier : ℕ
  pub quote_volume_24h : F
  pub price_change_pct_24h : F
  pub trade_count_24h : ℕ
  pub last_price : F

pub record BreadthSnapshotRow {ℓ} (F : Type ℓ) : Type ℓ where
  pub ts : ℕ
  pub breadth : BreadthSnapshot F
  pub price_change_dispersion : F
  pub btc_dominance : F

-- `"spike" in tags`
unfoldable pub carries_spike : List Tag → Bool
carries_spike [] = false
carries_spike (spike ∷ tags) = true
carries_spike (klass _ ∷ tags) = carries_spike tags

-- The rows of `build_symbol_rows` for the pairs of `all_symbols`.
unfoldable pub row_of_pair : List Text → List Text → Text → SymbolRow
unfolding member normalize_symbol
row_of_pair core_set meme_set pair =
    let base = normalize_symbol pair in
    let class_ =
      if member base core_set then core else if member base meme_set then meme else alt in
    let tier : ℕ = if member base core_set then 0 else 1 in
    record {
      symbol = upper pair;
      base = base;
      class_ = class_;
      tier = tier;
      status = trading;
      tags = klass class_ ∷ [];
      rank = none;
    }

unfoldable pub build_symbol_rows : List Text → List Text → List Text → List SymbolRow
unfolding row_of_pair
build_symbol_rows core_symbols meme_symbols all_symbols =
    map (row_of_pair (map normalize_symbol core_symbols) (map normalize_symbol meme_symbols))
      all_symbols

-- `_persist_tier_changes`: the rows that are inserted, where no query raises; a change of a symbol
-- without an id is left out.
unfoldable pub tier_change_rows : Repository → ℕ → List TierChange → Result (List TierChangeRow)
tier_change_rows get_id ts [] = ok []
tier_change_rows get_id ts (change ∷ changes) = do
  id ← get_id change.base
  rest ← tier_change_rows get_id ts changes
  ok (elim id [
    | none ↦ rest
    | some symbol_id ↦
        record {
          symbol_id = symbol_id;
          ts = ts;
          from_tier = change.from_tier;
          to_tier = change.to_tier;
          reason = change.reason;
        }
        ∷ rest
  ])

module _ {ℓ} {F : Type ℓ} ⦃f : Float F⦄ where
  -- `_persist`: the row, as `upsert` and `update_ranking` leave it.
  unfoldable pub row_of_state : SymbolState F → SymbolRow
  row_of_state s = record {
    symbol = s.pair;
    base = s.base;
    class_ = s.class_;
    tier = s.tier;
    status = s.status;
    tags = s.tags;
    rank = s.rank;
  }

  -- The state that `_load_existing` makes of a row.
  unfoldable pub restored : SymbolRow → SymbolState F
  unfolding new_state
  restored row = record (new_state row.base row.symbol row.tier row.class_ row.status) {
    tags = row.tags;
    rank = row.rank;
  }

  -- `_load_existing`: the states and the promoted symbols.
  unfoldable pub load_existing :
      List SymbolRow → Dict Text (SymbolState F) → List Text → Dict Text (SymbolState F) × List Text
  unfolding restored carries_spike include
  load_existing [] states promoted = (states, promoted)
  load_existing (row ∷ rows) states promoted =
      load_existing rows (insert row.base (restored row) states)
        (if carries_spike row.tags then include row.base promoted else promoted)

  -- `_persist_metrics_snapshots`
  unfoldable pub metrics_rows :
      Repository → ℕ → List (Text × SymbolState F) → Result (List (SymbolMetricsSnapshotRow F))
  metrics_rows get_id ts [] = ok []
  metrics_rows get_id ts ((_, s) ∷ states) = do
    id ← get_id s.base
    rest ← metrics_rows get_id ts states
    ok (elim id [
      | none ↦ rest
      | some symbol_id ↦
          record {
            symbol_id = symbol_id;
            ts = ts;
            tier = s.tier;
            quote_volume_24h = s.quote_volume;
            price_change_pct_24h = s.price_change_pct;
            trade_count_24h = s.count;
            last_price = s.last_price;
          }
          ∷ rest
    ])

  -- The share of BTC in the volume of all states.
  unfoldable pub btc_dominance_of : Dict Text (SymbolState F) → F
  unfolding lookup
  btc_dominance_of states =
      let total = f.sum (map (λ x. x.1.quote_volume) states) in
      elim (lookup (codes "BTC") states) [
        | none ↦ nought
        | some btc ↦ if f.lt nought total then f.div btc.quote_volume total else nought
      ]

  -- `_persist_breadth_snapshot`, for `statistics.pstdev`.
  unfoldable pub breadth_row :
      (List F → F)
      → ℕ
      → Option (BreadthSnapshot F)
      → Dict Text (SymbolState F)
      → Option (BreadthSnapshotRow F)
  unfolding btc_dominance_of
  breadth_row pstdev ts none states = none
  breadth_row pstdev ts (some breadth) states =
      let changes = map (λ x. x.1.price_change_pct) states in
      some (record {
        ts = ts;
        breadth = breadth;
        price_change_dispersion = if ltb 1 (length changes) then pstdev changes else nought;
        btc_dominance = btc_dominance_of states;
      })
