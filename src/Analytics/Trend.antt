-- ===== src/Analytics/Trend.antt =====
-- The indicator snapshot (src/orvixa/analytics/indicators.py) and the trend that
-- src/orvixa/analytics/trend.py derives from it.
use orvixa.Prelude.{Option, none, some, if◌then◌else◌}
use orvixa.Prelude.Float.{Float, nought, of_ℕ, fmin}

-- None while an indicator warms up.
pub record IndicatorSnapshot {ℓ} (F : Type ℓ) : Type ℓ where
  pub close : F
  pub high : F
  pub low : F
  pub volume : F
  pub ema_fast : Option F
  pub ema_slow : Option F
  pub ema_slow_prev : Option F
  pub rsi : Option F
  pub atr : Option F
  pub vol_realized : Option F
  pub vol_rel : Option F

pub data Direction : Type 0 where
  up down flat : Direction

pub record TrendResult {ℓ} (F : Type ℓ) : Type ℓ where
  pub direction : Direction
  pub strength : F
  pub slope : F
  pub score : F

module _ {ℓ} {F : Type ℓ} ⦃f : Float F⦄ where
  -- The direction for a threshold, and the score for a strength.
  unfoldable pub direction_of : F → F → Direction
  direction_of threshold diff_pct =
      if f.lt threshold diff_pct then up else if f.lt diff_pct (f.neg threshold) then down else flat

  unfoldable pub score_of : Direction → F → F
  score_of up strength = strength
  score_of down strength = f.neg strength
  score_of flat strength = nought

  unfoldable pub slope_of : F → Option F → F
  slope_of slow none = nought
  slope_of slow (some prev) =
      if f.eq prev nought then nought else f.mul (f.div (f.sub slow prev) (f.abs prev)) (of_ℕ 100)

  unfoldable pub trend_of : F → F → Option F → TrendResult F
  unfolding direction_of score_of slope_of fmin
  trend_of fast slow prev =
      let diff_pct = f.mul (f.div (f.sub fast slow) (f.abs slow)) (of_ℕ 100) in
      let direction = direction_of (f.lit 5 100) diff_pct in
      let strength = fmin (f.mul (f.abs diff_pct) (of_ℕ 20)) (of_ℕ 100) in
      record {
        direction = direction;
        strength = strength;
        slope = slope_of slow prev;
        score = score_of direction strength;
      }

  trend_from : Option F → Option F → Option F → Option (TrendResult F)
  unfolding trend_of
  trend_from none slow prev = none
  trend_from (some fast) none prev = none
  trend_from (some fast) (some slow) prev =
      if f.eq slow nought then none else some (trend_of fast slow prev)

  unfoldable pub compute_trend : IndicatorSnapshot F → Option (TrendResult F)
  unfolding trend_from
  compute_trend snapshot = trend_from snapshot.ema_fast snapshot.ema_slow snapshot.ema_slow_prev
