-- ===== src/Backtest/SampleSize.antt =====
-- The effective sample size (src/orvixa/backtest/signal_validation.py: `_autocorr`,
-- `_effective_sample_size`) and the regime of a candle (src/orvixa/backtest/regime_validation.py:
-- `_classify_trend_regime`, `_classify_vol_regime`, `_regime_conditioned_baselines`). The square of a
-- float is its product with itself.
pub mod Bounded
use orvixa.Prelude.{
  ℕ, zero, suc, ◌+◌, ◌-◌, min, Bool, List, [], ◌∷◌, ◌||◌, ◌==◌, map, Option, none, some, length,
  drop, leb, if◌then◌else◌,
}
use orvixa.Prelude.Eq.{Text, text_eq, pair_eq}
use orvixa.Prelude.Dict.{Dict, insert, lookup, get_or}
use orvixa.Prelude.Float.{Float, nought, of_ℕ, fmin, fmax}
use orvixa.Feeds.Base.{Candle}
use orvixa.Analytics.Trend.{Direction, up, down, flat}
use orvixa.Analytics.Regime.{VolRegime, low, normal, high}
use orvixa.Backtest.Returns.{forward_returns, pool_returns, empty_pools}

-- `range(from, from + count)`
unfoldable pub range_from : ℕ → ℕ → List ℕ
range_from from zero = []
range_from from (suc count) = from ∷ range_from (suc from) count

module _ {ℓ} {F : Type ℓ} ⦃f : Float F⦄ where
  -- The products of the deviations of `values[i]` and `values[i + lag]`.
  unfoldable pub products : F → List F → List F → List F
  products mean [] later = []
  products mean (x ∷ xs) [] = []
  products mean (x ∷ xs) (y ∷ ys) = f.mul (f.sub x mean) (f.sub y mean) ∷ products mean xs ys

  unfoldable pub autocorr : List F → ℕ → F
  unfolding products
  autocorr values lag =
      let mean = f.div (f.sum values) (of_ℕ (length values)) in
      let var = f.sum (products mean values values) in
      let cov = f.sum (products mean values (drop lag values)) in
      if (lag == 0) || leb (length values) lag
      then nought
      else if f.eq var nought
      then nought
      else f.div cov var

  -- `n / denom`
  unfoldable pub raw_size : List F → ℕ → F
  unfolding autocorr range_from fmax
  raw_size values max_lag =
      let lags = range_from 1 (min max_lag (length values - 1)) in
      let autocorr_sum = f.sum (map (autocorr values) lags) in
      let denom = fmax (f.add (of_ℕ 1) (f.mul (of_ℕ 2) autocorr_sum)) (f.lit 1 1_000_000_000) in
      f.div (of_ℕ (length values)) denom

  unfoldable pub effective_sample_size : List F → ℕ → Option F
  unfolding raw_size fmin fmax
  effective_sample_size values max_lag =
      if length values == 0
      then none
      else if (length values == 1) || (max_lag == 0)
      then some (of_ℕ (length values))
      else some (fmin (fmax (raw_size values max_lag) (of_ℕ 1)) (of_ℕ (length values)))

-- The labels, with "unknown" while an indicator warms up.
pub data TrendLabel : Type 0 where
  trending : Direction → TrendLabel
  unknown : TrendLabel

pub data VolLabel : Type 0 where
  regime : VolRegime → VolLabel
  unknown : VolLabel

unfoldable pub classify_trend_regime : Option Direction → TrendLabel
classify_trend_regime none = TrendLabel.unknown
classify_trend_regime (some direction) = trending direction

unfoldable pub classify_vol_regime {ℓ} : {F : Type ℓ} ⦃f : Float F⦄ → F → Option F → VolLabel
classify_vol_regime threshold none = VolLabel.unknown
classify_vol_regime ⦃f⦄ threshold (some vol_realized) =
    if f.le threshold vol_realized
    then regime high
    else if f.le vol_realized (f.div threshold (of_ℕ 3))
    then regime low
    else regime normal

module _ {ℓ} {F : Type ℓ} ⦃f : Float F⦄ where
  -- The loop over the tags, by index; the tags of a bucket are texts.
  unfoldable pub conditioned_from :
      List (Candle F)
      → List ℕ
      → ℕ
      → ℕ
      → ℕ
      → List (Text × Text)
      → Dict (Text × Text) (Dict ℕ (List F))
      → Dict (Text × Text) (Dict ℕ (List F))
  unfolding forward_returns pool_returns empty_pools
  conditioned_from candles horizons execution_lag interval_ms idx [] pools = pools
  conditioned_from candles horizons execution_lag interval_ms idx (bucket ∷ tags) pools =
      let fwd = forward_returns candles idx horizons execution_lag interval_ms in
      let pool = get_or bucket (empty_pools horizons []) pools in
      conditioned_from candles horizons execution_lag interval_ms (idx + 1) tags
        (insert bucket (pool_returns fwd pool) pools)

  unfoldable pub regime_conditioned_baselines :
      List (Candle F) → List (Text × Text) → List ℕ → ℕ → ℕ → Dict (Text × Text) (Dict ℕ (List F))
  unfolding conditioned_from
  regime_conditioned_baselines candles regime_tags horizons execution_lag interval_ms =
      conditioned_from candles horizons execution_lag interval_ms 0 regime_tags []
