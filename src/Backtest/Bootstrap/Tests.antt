-- ===== src/Backtest/Bootstrap/Tests.antt =====
-- Intervals of three resamples.
use orvixa.Prelude.{ℕ, ◌+◌, ◌≡◌, refl, List, [], ◌∷◌, take, arith}
use orvixa.Prelude.Int.{pos}
use orvixa.Prelude.Result.{ok}
use orvixa.Prelude.Float.{◌≼◌}
use orvixa.Prelude.Float.Fixed.{Fixed, fixed_float, runs}
use orvixa.Prelude.Float.Lawful.{Fixed-IsOrdered}
use orvixa.Backtest.Bootstrap.{Random, resample, draws_of, bootstrap_ci}
use orvixa.Backtest.Bootstrap.Ordered.{bootstrap_ci_ordered}

-- Draws the first values.
abbrev rng : Random Fixed ℕ
rng = record { seeded = λ seed. seed; choices = λ values k state. (take k values, state + 1) }

abbrev signal_returns : List Fixed
signal_returns = pos 300 ∷ pos 100 ∷ pos 200 ∷ []

abbrev baseline_returns : List Fixed
baseline_returns = pos 50 ∷ pos 70 ∷ []

bootstrap_ci_ordered_example :
    (mean_low : Fixed) × (mean_high : Fixed) × (edge_low : Fixed) × (edge_high : Fixed)
    × (bootstrap_ci rng signal_returns baseline_returns (pos 20_000) (pos 20_000) 3 0
        ≡ ok ((mean_low, mean_high), (edge_low, edge_high)))
    × (mean_low ≼ mean_high)
    × (edge_low ≼ edge_high)
unfolding draws_of resample runs
bootstrap_ci_ordered_example =
    bootstrap_ci_ordered Fixed-IsOrdered rng signal_returns baseline_returns (pos 20_000)
      (pos 20_000) 3 0 2 2 refl refl (omega arith) (omega arith) (refl, (refl, (refl, tt)))
      (refl, (refl, (refl, tt)))
