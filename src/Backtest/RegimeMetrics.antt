-- ===== src/Backtest/RegimeMetrics.antt =====
-- The metrics of the signals of a symbol by regime (src/orvixa/backtest/regime_validation.py:
-- `_compute_regime_tags`, `_bucket_key`, `compute_regime_metrics`).

mod Tests
pub mod Grouped
pub mod Selected
pub mod Labelled
use orvixa.Prelude.{
  ℕ, ◌+◌, Bool, true, false, List, [], ◌∷◌, ◌++◌, map, Option, none, some, length, count_if,
  get_elem?,
}
use orvixa.Prelude.Eq.{Text, text_eq, pair_eq, ℕ_eq, codes}
use orvixa.Prelude.Dict.{Dict, lookup, insert, get_or}
use orvixa.Prelude.Result.{Result, ok, raised, value_error, index_error, or_raise, ◌>>=◌}
use orvixa.Prelude.Float.{Float, of_ℕ}
use orvixa.Feeds.Base.{Candle}
use orvixa.Analytics.Trend.{TrendResult, Direction, up, down, flat, compute_trend}
use orvixa.Analytics.Regime.{low, normal, high}
use orvixa.Analytics.Indicators.{SymbolIndicators, new_indicators, indicators_update}
use orvixa.Analytics.Engine.{EngineSettings}
use orvixa.Backtest.Returns.{empty_pools}
use orvixa.Backtest.SampleSize.{
  TrendLabel, trending, VolLabel, regime, classify_trend_regime, classify_vol_regime,
  regime_conditioned_baselines,
}
use orvixa.Backtest.Clusters.{Entry, ClusterTag, isolated, clustered, compute_cluster_tags}
use orvixa.Backtest.Policy.{Validity, classify_validity, RegimeCell, Bucket, CellsByType, fill}
use orvixa.Backtest.Bootstrap.{Random}
use orvixa.Backtest.Metrics.{Captured, Plan, Figures, figures_of}
use orvixa.Backtest.Metrics.Tables.{map_values, sum_codes}

abbrev pub RegimeTag : Type 0
RegimeTag = Text × Text

-- The texts of the labels.
unfoldable pub trend_text : TrendLabel → Text
trend_text (trending up) = codes "up"
trend_text (trending down) = codes "down"
trend_text (trending flat) = codes "flat"
trend_text TrendLabel.unknown = codes "unknown"

unfoldable pub vol_text : VolLabel → Text
vol_text (regime low) = codes "low"
vol_text (regime normal) = codes "normal"
vol_text (regime high) = codes "high"
vol_text VolLabel.unknown = codes "unknown"

unfoldable pub bucket_key : RegimeTag → Bucket
bucket_key (trend_regime, vol_regime) =
    codes "trend=" ++ trend_regime ++ codes ",vol=" ++ vol_regime

unfoldable pub is_clustered_tag : ClusterTag → Bool
is_clustered_tag clustered = true
is_clustered_tag isolated = false

-- `zip(…, strict=True)`
unfoldable pub zip_strict {ℓ κ} :
    {A : Type ℓ} {B : Type κ} → List A → List B → Result (List (A × B))
zip_strict [] [] = ok []
zip_strict (a ∷ as_) (b ∷ bs) = do rest ← zip_strict as_ bs; ok ((a, b) ∷ rest)
zip_strict _ _ = raised value_error

abbrev pub Tagged {ℓ} : Type ℓ → Type ℓ
Tagged F = List (Captured F × ClusterTag)

module _ {ℓ} {F : Type ℓ} where
  -- `ts_to_idx`, from index `idx` on.
  unfoldable pub index_times : List (Candle F) → ℕ → Dict ℕ ℕ → Dict ℕ ℕ
  index_times [] idx out = out
  index_times (c ∷ candles) idx out = index_times candles (idx + 1) (insert c.ts idx out)

  unfoldable pub entry_of : Captured F → Entry
  entry_of e = record { signal = e.signal; ts = e.ts }

  -- The loop that fills `by_bucket`; a signal at no candle's time is left out.
  unfoldable pub by_bucket_from :
      Dict ℕ ℕ
      → List RegimeTag
      → Tagged F
      → Dict RegimeTag (Dict Text (Tagged F))
      → Result (Dict RegimeTag (Dict Text (Tagged F)))
  by_bucket_from ts_to_idx regime_tags [] out = ok out
  by_bucket_from ts_to_idx regime_tags ((entry, cluster) ∷ signals) out =
      elim (lookup entry.ts ts_to_idx) [
        | none ↦ by_bucket_from ts_to_idx regime_tags signals out
        | some idx ↦ do
          bucket ← or_raise index_error (get_elem? regime_tags idx)
          let by_type = get_or bucket [] out
          let entries = get_or entry.signal [] by_type ++ (entry, cluster) ∷ []
          by_bucket_from ts_to_idx regime_tags signals
              (insert bucket (insert entry.signal entries by_type) out)
      ]

module _ {ℓ} {F : Type ℓ} ⦃f : Float F⦄ where
  direction_in : Option (TrendResult F) → Option Direction
  direction_in none = none
  direction_in (some trend) = some trend.direction

  unfoldable pub tags_of_candles :
      EngineSettings F → SymbolIndicators F → List (Candle F) → List RegimeTag
  unfolding indicators_update compute_trend direction_in classify_trend_regime classify_vol_regime
      trend_text vol_text
  tags_of_candles settings indicators [] = []
  tags_of_candles settings indicators (candle ∷ candles) =
      let (snapshot, next) = indicators_update settings.indicators indicators candle in
      (
        trend_text (classify_trend_regime (direction_in (compute_trend snapshot))),
        vol_text (classify_vol_regime settings.signals.high_volatility_pct snapshot.vol_realized),
      )
      ∷ tags_of_candles settings next candles

  unfoldable pub compute_regime_tags : EngineSettings F → List (Candle F) → List RegimeTag
  unfolding tags_of_candles
  compute_regime_tags settings candles = tags_of_candles settings new_indicators candles

  unfoldable pub clustered_fraction_of : Tagged F → F
  unfolding is_clustered_tag
  clustered_fraction_of tagged =
      f.div (of_ℕ (count_if (λ x. is_clustered_tag x.1) tagged)) (of_ℕ (length tagged))

  unfoldable pub label_of : F → Figures F → Validity
  unfolding classify_validity
  label_of fraction x = classify_validity x.neff x.edge_ci_low x.edge_ci_high fraction

  -- The entry of `out` for a fraction of clustered signals, their number and their figures.
  unfoldable pub cell_with : F → ℕ → Dict ℕ (Figures F) → RegimeCell F
  unfolding label_of map_values
  cell_with fraction sample_size figures = record {
    classification = map_values (label_of fraction) figures;
    edge = map_values (λ x. x.edge) figures;
    edge_ci_low = map_values (λ x. x.edge_ci_low) figures;
    edge_ci_high = map_values (λ x. x.edge_ci_high) figures;
    clustered_fraction = f.round_to 4 fraction;
    sample_size = sample_size;
    neff = map_values (λ x. x.neff) figures;
  }

  module _ (plan : Plan) where
    -- The signals by bucket and type, with their cluster tags.
    unfoldable pub grouped :
        EngineSettings F
        → List (Captured F)
        → List (Candle F)
        → Result (Dict RegimeTag (Dict Text (Tagged F)))
    unfolding compute_regime_tags compute_cluster_tags index_times by_bucket_from zip_strict
        entry_of
    grouped settings signals candles = do
      tagged ← zip_strict signals (
          compute_cluster_tags (map entry_of signals) settings.events.breakout_window
            plan.interval_ms)
      by_bucket_from (index_times candles 0 []) (compute_regime_tags settings candles) tagged []

    unfoldable pub pools_by_regime :
        EngineSettings F → List (Candle F) → Dict RegimeTag (Dict ℕ (List F))
    unfolding compute_regime_tags regime_conditioned_baselines
    pools_by_regime settings candles =
        regime_conditioned_baselines candles (compute_regime_tags settings candles) plan.horizons
          plan.execution_lag plan.interval_ms

  module _ {S : Type 0} (rng : Random F S) (plan : Plan) where
    -- The cell of a type of signal in a bucket.
    unfoldable pub cell_of : Dict ℕ (List F) → ℕ → Tagged F → Result (RegimeCell F)
    unfolding figures_of clustered_fraction_of cell_with
    cell_of pool offset tagged = do
      figures ← figures_of rng plan pool offset (map (λ x. x.0) tagged)
      ok (cell_with (clustered_fraction_of tagged) (length (map (λ x. x.0) tagged)) figures)

    -- The loop over the buckets.
    unfoldable pub regime_cells :
        Dict RegimeTag (Dict ℕ (List F))
        → List (RegimeTag × Dict Text (Tagged F))
        → Dict Bucket (CellsByType F)
        → Result (Dict Bucket (CellsByType F))
    unfolding cell_of fill bucket_key sum_codes empty_pools
    regime_cells pools [] out = ok out
    regime_cells pools ((bucket, by_type) ∷ by_bucket) out = do
      cells ←
          fill
            (λ sig_type tagged.
              cell_of (get_or bucket (empty_pools plan.horizons []) pools)
                (sum_codes sig_type + sum_codes (bucket_key bucket)) tagged)
            by_type
      regime_cells pools by_bucket (insert (bucket_key bucket) cells out)

    unfoldable pub compute_regime_metrics :
        EngineSettings F
        → List (Captured F)
        → List (Candle F)
        → Result (Dict Bucket (CellsByType F))
    unfolding grouped pools_by_regime regime_cells
    compute_regime_metrics settings signals [] = ok []
    compute_regime_metrics settings signals (c ∷ cs) = do
      by_bucket ← grouped plan settings signals (c ∷ cs)
      regime_cells (pools_by_regime plan settings (c ∷ cs)) by_bucket []
