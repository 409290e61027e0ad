-- ===== src/Analytics/Regime/Health.antt =====
-- The range of the health score.
use orvixa.Prelude.{ℕ, ◌≡◌, ◌≤◌, refl, Option, ◌⊎◌, inl, inr, arith}
use orvixa.Prelude.Int.{pos}
use orvixa.Prelude.Result.{ok, raised, value_error}
use orvixa.Prelude.Float.{◌≼◌, Float, IsOrdered}
use orvixa.Prelude.Float.Order.{round_clamp_total}
use orvixa.Symbols.Breadth.{BreadthSnapshot}
use orvixa.Analytics.Regime.{
  regime_of, vol_regime_of, RegimeResult, health_raw, compute_health_score, evaluate,
}

module _ {ℓ} {F : Type ℓ} ⦃f : Float F⦄ (laws : IsOrdered F) where
  -- `RegimeEngine.evaluate` returns a regime with a health score from 0 to 100, or raises ValueError;
  -- it raises exactly if the weighted score comes out as NaN.
  pub evaluate-range :
      (high_volatility_pct : F) (breadth : BreadthSnapshot F) (up_frac down_frac : F)
      (avg_vol_realized : Option F)
      → let score =
          health_raw breadth up_frac (vol_regime_of high_volatility_pct avg_vol_realized) in
        let result = evaluate high_volatility_pct breadth up_frac down_frac avg_vol_realized in
        ((score ≼ score)
          × ((r : RegimeResult F) × (m : ℕ) × (result ≡ ok r)
              × (r.health_score ≡ pos m)
              × (m ≤ 100)))
        ⊎ (¬ (score ≼ score) × (result ≡ raised value_error))
  unfolding evaluate compute_health_score
  evaluate-range threshold breadth up_frac down_frac avg =
      let vol = vol_regime_of threshold avg in
      elim (round_clamp_total laws 100 (health_raw breadth up_frac vol) (omega arith)) [
        | inl (num, rounded) ↦
            let (m, q, le) = rounded in
            let r : RegimeResult F = record {
              regime = regime_of breadth up_frac down_frac;
              vol_regime = vol;
              breadth = breadth.ad_ratio;
              health_score = pos m;
            } in
            inl (num, (r, m, rw q refl, refl, le))
        | inr (nan, q) ↦ inr (nan, rw q refl)
      ]
