-- ===== src/Backtest/SampleSize/Bounded.antt =====
-- The range of the effective sample size.
use orvixa.Prelude.{
  ℕ, ◌<◌, ◌≡◌, refl, false, ◌||◌, ◌==◌, List, some, length, inl, inr, Bool-cases, arith,
}
use orvixa.Prelude.Float.{Float, IsOrdered, ◌≼◌, of_ℕ, fmin, fmax}
use orvixa.Prelude.Float.Order.{clamp_bounds}
use orvixa.Backtest.SampleSize.{raw_size, effective_sample_size}

-- The effective sample size of samples, of which there is at least one, is from 1 to their number, if
-- the quotient by the autocorrelation is a number.
pub effective_sample_size-range {ℓ} :
    {F : Type ℓ} ⦃f : Float F⦄ (laws : IsOrdered F) (values : List F) (max_lag : ℕ)
    → 0 < length values
    → raw_size values max_lag ≼ raw_size values max_lag
    → (x : F) × (effective_sample_size values max_lag ≡ some x)
      × (of_ℕ 1 ≼ x)
      × (x ≼ of_ℕ (length values))
unfolding effective_sample_size
effective_sample_size-range {F = F} laws values max_lag some_values num =
    let n = length values in
    let one_le : ◌≼◌ {F = F} (of_ℕ 1) (of_ℕ n) =
      laws.lit_mono 1 1 n 1 (omega arith) (omega arith) (omega arith) in
    let (low, high) = clamp_bounds laws (of_ℕ 1) (of_ℕ n) (raw_size values max_lag) num one_le in
    let there : (n == 0) ≡ false = ground arith in
    elim (Bool-cases ((n == 1) || (max_lag == 0))) [
      | inl short ↦
          (of_ℕ n, rw there (rw short refl), one_le, (laws.refl_of_le (of_ℕ 1) (of_ℕ n) one_le).1)
      | inr long ↦ (
        fmin (fmax (raw_size values max_lag) (of_ℕ 1)) (of_ℕ n),
        rw there (rw long refl),
        low,
        high,
      )
    ]
