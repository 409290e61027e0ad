-- ===== src/Backtest/Bootstrap.antt =====
-- Confidence intervals by resampling (src/orvixa/backtest/signal_validation.py: `_percentile`,
-- `_bootstrap_ci`). The generator of random numbers, of the standard library, is an argument.
pub mod Ordered
mod Tests
use orvixa.Prelude.{ℕ, zero, suc, ◌-◌, List, [], ◌∷◌, length, get_elem?, leb, if◌then◌else◌}
use orvixa.Prelude.Int.{ℤ, pos, negsuc, sub_ℕ, ltb_ℤ}
use orvixa.Prelude.Result.{Result, ok, raised, index_error, value_error, or_raise, ◌>>=◌}
use orvixa.Prelude.Float.{Float, of_ℕ}

-- `random.Random(seed)` with its state, and `choices(values, k=k)` of values that are not empty.
pub record Random {ℓ} (F : Type ℓ) (S : Type 0) : Type ℓ where
  pub seeded : ℕ → S
  pub choices : List F → ℕ → S → List F × S

-- `values[idx]`, where a negative index counts from the end.
unfoldable pub at_index {ℓ} : {A : Type ℓ} → List A → ℤ → Result A
at_index values (pos i) = or_raise index_error (get_elem? values i)
at_index values (negsuc i) =
    if leb (suc i) (length values)
    then or_raise index_error (get_elem? values (length values - suc i))
    else raised index_error

module _ {ℓ} {F : Type ℓ} ⦃f : Float F⦄ where
  -- `list.sort`: stable and ascending.
  unfoldable pub place_value : F → List F → List F
  place_value x [] = x ∷ []
  place_value x (y ∷ ys) = let rest = place_value x ys in if f.lt y x then y ∷ rest else x ∷ y ∷ ys

  unfoldable pub sort_values : List F → List F
  unfolding place_value
  sort_values [] = []
  sort_values (x ∷ xs) = place_value x (sort_values xs)

  unfoldable pub percentile : List F → F → Result F
  unfolding at_index
  percentile sorted pct = do
    idx ← or_raise value_error (f.truncate (f.mul pct (of_ℕ (length sorted))))
    at_index sorted (if ltb_ℤ (sub_ℕ (length sorted) 1) idx then sub_ℕ (length sorted) 1 else idx)

  -- `max(1, round(neff))`
  unfoldable pub draws_of : F → Result ℕ
  draws_of neff = do
    n ← or_raise value_error (f.round neff)
    ok (elim n [ pos m ↦ if leb 1 m then m else 1 | negsuc _ ↦ 1 ])

  -- The percentiles 2.5 and 97.5.
  unfoldable pub interval_of : List F → Result (F × F)
  unfolding percentile sort_values
  interval_of values = do
    low ← percentile (sort_values values) (f.lit 25 1_000)
    high ← percentile (sort_values values) (f.lit 975 1_000)
    ok (low, high)

  module _ {S : Type 0} (rng : Random F S) where
    -- The loop of `_bootstrap_ci`: the means and the edges.
    unfoldable pub resample : List F → List F → ℕ → ℕ → ℕ → S → List F × List F
    resample signal_returns baseline_returns sig_n base_n zero state = ([], [])
    resample signal_returns baseline_returns sig_n base_n (suc iterations) state =
        let (drawn, between) = rng.choices signal_returns sig_n state in
        let (base_drawn, after) = rng.choices baseline_returns base_n between in
        let sig_mean = f.div (f.sum drawn) (of_ℕ sig_n) in
        let base_mean = f.div (f.sum base_drawn) (of_ℕ base_n) in
        let (means, edges) =
          resample signal_returns baseline_returns sig_n base_n iterations after in
        (sig_mean ∷ means, f.sub sig_mean base_mean ∷ edges)

    unfoldable pub bootstrap_ci : List F → List F → F → F → ℕ → ℕ → Result ((F × F) × (F × F))
    unfolding draws_of resample interval_of
    bootstrap_ci signal_returns baseline_returns signal_neff baseline_neff iterations seed = do
      sig_n ← draws_of signal_neff
      base_n ← draws_of baseline_neff
      let (means, edges) =
            resample signal_returns baseline_returns sig_n base_n iterations (rng.seeded seed) in
          do mean_ci ← interval_of means; edge_ci ← interval_of edges; ok (mean_ci, edge_ci)
