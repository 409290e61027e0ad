-- ===== src/Analytics/Regime.antt =====
-- The market health score (src/orvixa/analytics/health.py) and the market regime
-- (src/orvixa/analytics/regime.py). The snapshot of figures in the result, for display, is left out.
pub mod Health
use orvixa.Prelude.{ℕ, Bool, true, false, not, ◌&&◌, ◌||◌, Option, none, some, if◌then◌else◌}
use orvixa.Prelude.Int.{ℤ}
use orvixa.Prelude.Result.{Result, ok, raised, value_error, or_raise, ◌>>=◌}
use orvixa.Prelude.Float.{Float, nought, of_ℕ, fmin, fmax}
use orvixa.Symbols.Breadth.{BreadthSnapshot}

pub data MarketRegime : Type 0 where
  risk_on risk_off rotational : MarketRegime

pub data VolRegime : Type 0 where
  low normal high : VolRegime

pub record RegimeResult {ℓ} (F : Type ℓ) : Type ℓ where
  pub regime : MarketRegime
  pub vol_regime : VolRegime
  pub breadth : F
  pub health_score : ℤ

module _ {ℓ} {F : Type ℓ} ⦃f : Float F⦄ where
  -- The penalty or the bonus of the volatility regime.
  unfoldable pub adjust : VolRegime → F → F
  adjust high score = f.sub score (of_ℕ 15)
  adjust low score = f.add score (of_ℕ 5)
  adjust normal score = score

  -- `score` before the clamp.
  unfoldable pub health_raw : BreadthSnapshot F → F → VolRegime → F
  unfolding adjust fmin fmax
  health_raw breadth trend_up_frac vol_regime =
      let unit : F → F = λ x. fmin (fmax x nought) (of_ℕ 1) in
      let ad = f.mul (unit (f.div breadth.ad_ratio (of_ℕ 2))) (of_ℕ 100) in
      let trend = fmin (fmax breadth.pct_above_trend nought) (of_ℕ 100) in
      let participation = f.mul (unit trend_up_frac) (of_ℕ 100) in
      let weighted = f.add (f.mul (f.lit 4 10) ad) (f.mul (f.lit 3 10) trend) in
      adjust vol_regime (f.add weighted (f.mul (f.lit 3 10) participation))

  unfoldable pub compute_health_score : BreadthSnapshot F → F → VolRegime → Result ℤ
  unfolding health_raw fmin fmax
  compute_health_score breadth trend_up_frac vol_regime =
      or_raise value_error
        (f.round (fmin (fmax (health_raw breadth trend_up_frac vol_regime) nought) (of_ℕ 100)))

  unfoldable pub vol_regime_of : F → Option F → VolRegime
  vol_regime_of threshold none = normal
  vol_regime_of threshold (some avg) =
      if f.le threshold avg
      then high
      else if f.le avg (f.div threshold (of_ℕ 3))
      then low
      else normal

  unfoldable pub regime_of : BreadthSnapshot F → F → F → MarketRegime
  regime_of breadth trend_up_frac trend_down_frac =
      if f.le (f.lit 12 10) breadth.ad_ratio
        && f.le (of_ℕ 55) breadth.pct_above_trend
        && f.lt trend_down_frac trend_up_frac
      then risk_on
      else if f.le breadth.ad_ratio (f.lit 8 10)
          && f.le breadth.pct_above_trend (of_ℕ 45)
          && f.lt trend_up_frac trend_down_frac
      then risk_off
      else rotational

  -- `RegimeEngine.evaluate`, for the setting `high_volatility_pct`.
  unfoldable pub evaluate : F → BreadthSnapshot F → F → F → Option F → Result (RegimeResult F)
  unfolding regime_of vol_regime_of compute_health_score
  evaluate high_volatility_pct breadth trend_up_frac trend_down_frac avg_vol_realized = do
    let vol_regime = vol_regime_of high_volatility_pct avg_vol_realized
    health_score ← compute_health_score breadth trend_up_frac vol_regime
    ok (record {
      regime = regime_of breadth trend_up_frac trend_down_frac;
      vol_regime = vol_regime;
      breadth = breadth.ad_ratio;
      health_score = health_score;
    })
