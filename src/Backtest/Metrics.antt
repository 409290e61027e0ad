-- ===== src/Backtest/Metrics.antt =====
-- The metrics of captured signals (src/orvixa/backtest/signal_validation.py: `compute_signal_metrics`).
-- The figures of a horizon are computed together and split into the dicts of the result. The time of an
-- entry is kept as epoch milliseconds.
pub mod Tables
use orvixa.Prelude.{
  ℕ, ◌+◌, ◌-◌, ◌*◌, Bool, true, List, [], ◌∷◌, ◌++◌, Option, none, some, length, count_if,
  if◌then◌else◌,
}
use orvixa.Prelude.Int.{ℤ}
use orvixa.Prelude.Eq.{Text, text_eq, ℕ_eq, Eq, codes, text_beq}
use orvixa.Prelude.Dict.{Dict, lookup, insert, get_or}
use orvixa.Prelude.Result.{Result, ok, key_error, or_raise, ◌>>=◌}
use orvixa.Prelude.Float.{Float, nought, of_ℕ}
use orvixa.Feeds.Base.{Candle}
use orvixa.Backtest.Returns.{baseline_returns, empty_pools}
use orvixa.Backtest.SampleSize.{effective_sample_size}
use orvixa.Backtest.Metrics.Tables.{assign_each, map_values, group_by, sum_codes}
use orvixa.Backtest.Bootstrap.{Random, bootstrap_ci}

-- A captured signal.
pub record Captured {ℓ} (F : Type ℓ) : Type ℓ where
  pub ts : ℕ
  pub signal : Text
  pub confidence : ℤ
  pub close : F
  pub fwd_returns : Dict ℕ (Option F)

-- The parameters of the computations.
pub record Plan : Type 0 where
  pub horizons : List ℕ
  pub execution_lag : ℕ
  pub interval_ms : ℕ
  pub bootstrap_iterations : ℕ
  pub bootstrap_seed : ℕ

-- What is computed for a type of signal at a horizon.
pub record Figures {ℓ} (F : Type ℓ) : Type ℓ where
  pub mean : Option F
  pub edge : Option F
  pub neff : Option F
  pub mean_ci_low : Option F
  pub mean_ci_high : Option F
  pub edge_ci_low : Option F
  pub edge_ci_high : Option F

pub record SignalMetrics {ℓ} (F : Type ℓ) : Type ℓ where
  pub sample_size : Dict Text ℕ
  pub baseline_return : Dict ℕ (Option F)
  pub baseline_neff : Dict ℕ (Option F)
  pub mean_return : Dict Text (Dict ℕ (Option F))
  pub mean_return_ci_low : Dict Text (Dict ℕ (Option F))
  pub mean_return_ci_high : Dict Text (Dict ℕ (Option F))
  pub edge : Dict Text (Dict ℕ (Option F))
  pub edge_ci_low : Dict Text (Dict ℕ (Option F))
  pub edge_ci_high : Dict Text (Dict ℕ (Option F))
  pub neff : Dict Text (Dict ℕ (Option F))
  pub hit_rate : Dict Text (Dict ℕ (Option F))

-- `sig_type in ("buy", "sell")`
is_directed : Text → Bool
is_directed sig_type =
    if text_beq sig_type (codes "buy") then true else text_beq sig_type (codes "sell")

module _ {ℓ} {F : Type ℓ} ⦃f : Float F⦄ where
  -- The returns at a horizon that are not None; a horizon that an entry lacks raises.
  unfoldable pub returns_at : ℕ → List (Captured F) → Result (List F)
  returns_at h [] = ok []
  returns_at h (entry ∷ entries) = do
    value ← or_raise key_error (lookup h entry.fwd_returns)
    rest ← returns_at h entries
    ok (elim value [ none ↦ rest | some v ↦ v ∷ rest ])

  unfoldable pub mean_of : List F → Option F
  mean_of [] = none
  mean_of (x ∷ xs) = some (f.div (f.sum (x ∷ xs)) (of_ℕ (length (x ∷ xs))))

  -- The difference of two numbers that are there.
  unfoldable pub difference : Option F → Option F → Option F
  difference (some mean) (some base) = some (f.sub mean base)
  difference _ _ = none

  -- `baseline_pool[h].extend(per_symbol[h])`
  unfoldable pub extend_pools : List ℕ → Dict ℕ (List F) → Dict ℕ (List F) → Dict ℕ (List F)
  extend_pools [] per_symbol pools = pools
  extend_pools (h ∷ horizons) per_symbol pools =
      extend_pools horizons per_symbol
        (insert h (get_or h [] pools ++ get_or h [] per_symbol) pools)

  unfoldable pub pool_symbols :
      Plan → List (Text × List (Candle F)) → Dict ℕ (List F) → Dict ℕ (List F)
  unfolding extend_pools baseline_returns
  pool_symbols plan [] pools = pools
  pool_symbols plan ((_, candles) ∷ series) pools = pool_symbols plan series (
      extend_pools plan.horizons
        (baseline_returns candles plan.horizons plan.execution_lag plan.interval_ms) pools)

  -- `_effective_sample_size(values, max_lag=h - 1)` for each horizon of the pools.
  unfoldable pub sizes_of : Dict ℕ (List F) → Dict ℕ (Option F)
  unfolding effective_sample_size
  sizes_of [] = []
  sizes_of ((h, values) ∷ pools) = (h, effective_sample_size values (h - 1)) ∷ sizes_of pools

  module _ {S : Type 0} (rng : Random F S) where
    -- The intervals, where there are returns, a baseline and both sizes.
    unfoldable pub intervals_of :
        List F → List F → Option F → Option F → ℕ → ℕ → Result (Option ((F × F) × (F × F)))
    unfolding bootstrap_ci
    intervals_of [] pool signal_neff baseline_neff iterations seed = ok none
    intervals_of (x ∷ xs) [] signal_neff baseline_neff iterations seed = ok none
    intervals_of (x ∷ xs) (y ∷ ys) none baseline_neff iterations seed = ok none
    intervals_of (x ∷ xs) (y ∷ ys) (some n) none iterations seed = ok none
    intervals_of (x ∷ xs) (y ∷ ys) (some n) (some m) iterations seed = do
      ci ← bootstrap_ci rng (x ∷ xs) (y ∷ ys) n m iterations seed
      ok (some ci)

    -- The body of the loop over the horizons, for the entries of a type; `offset` is what the type adds
    -- to the seed.
    unfoldable pub figures_at :
        Plan → Dict ℕ (List F) → ℕ → List (Captured F) → ℕ → Result (Figures F)
    unfolding returns_at mean_of difference intervals_of effective_sample_size
    figures_at plan pools offset entries h = do
      returns ← returns_at h entries
      pool ← or_raise key_error (lookup h pools)
      let neff = effective_sample_size returns (h - 1) in
          do
            ci ←
                intervals_of returns pool neff (effective_sample_size pool (h - 1))
                  plan.bootstrap_iterations (plan.bootstrap_seed + 1_000 * h + offset)
            ok (record {
              mean = mean_of returns;
              edge = difference (mean_of returns) (mean_of pool);
              neff = neff;
              mean_ci_low = elim ci [ none ↦ none | some x ↦ some x.0.0 ];
              mean_ci_high = elim ci [ none ↦ none | some x ↦ some x.0.1 ];
              edge_ci_low = elim ci [ none ↦ none | some x ↦ some x.1.0 ];
              edge_ci_high = elim ci [ none ↦ none | some x ↦ some x.1.1 ];
            })

    unfoldable pub figures_of :
        Plan → Dict ℕ (List F) → ℕ → List (Captured F) → Result (Dict ℕ (Figures F))
    unfolding figures_at assign_each
    figures_of plan pools offset entries =
        assign_each (figures_at plan pools offset entries) plan.horizons []

  unfoldable pub share : (F → Bool) → List F → Option F
  share hit [] = none
  share hit (x ∷ xs) = some (f.div (of_ℕ (count_if hit (x ∷ xs))) (of_ℕ (length (x ∷ xs))))

  -- The hit rate at a horizon of a type, which is "buy" or "sell".
  unfoldable pub hit_rate_at : Text → List (Captured F) → ℕ → Result (Option F)
  unfolding returns_at share
  hit_rate_at sig_type entries h = do
    returns ← returns_at h entries
    ok (
        share (λ r. if text_beq sig_type (codes "buy") then f.lt nought r else f.lt r nought)
          returns)

  unfoldable pub hit_rates :
      List ℕ → List (Text × List (Captured F)) → Result (Dict Text (Dict ℕ (Option F)))
  unfolding hit_rate_at assign_each is_directed
  hit_rates horizons [] = ok []
  hit_rates horizons ((sig_type, entries) ∷ by_type) = do
    rest ← hit_rates horizons by_type
    rates ←
        (if is_directed sig_type
          then assign_each (hit_rate_at sig_type entries) horizons []
          else ok [])
    ok (if is_directed sig_type then (sig_type, rates) ∷ rest else rest)

  -- `by_type` over the signals of all symbols.
  unfoldable pub group_signals :
      List (Text × List (Captured F))
      → Dict Text (List (Captured F))
      → Dict Text (List (Captured F))
  unfolding group_by
  group_signals [] by_type = by_type
  group_signals ((_, entries) ∷ signals) by_type =
      group_signals signals (group_by (λ e. e.signal) entries by_type)

  module _ {S : Type 0} (rng : Random F S) where
    -- The loop over the types.
    unfoldable pub figures_by_type :
        Plan
        → Dict ℕ (List F)
        → List (Text × List (Captured F))
        → Result (Dict Text (Dict ℕ (Figures F)))
    unfolding figures_of sum_codes
    figures_by_type plan pools [] = ok []
    figures_by_type plan pools ((sig_type, entries) ∷ by_type) = do
      figures ← figures_of rng plan pools (sum_codes sig_type) entries
      rest ← figures_by_type plan pools by_type
      ok ((sig_type, figures) ∷ rest)

    column : (Figures F → Option F) → Dict Text (Dict ℕ (Figures F)) → Dict Text (Dict ℕ (Option F))
    unfolding map_values
    column field table = map_values (map_values field) table

    unfoldable pub compute_signal_metrics :
        Plan
        → Dict Text (List (Captured F))
        → Dict Text (List (Candle F))
        → Result (SignalMetrics F)
    unfolding pool_symbols empty_pools group_signals figures_by_type hit_rates sizes_of column
        mean_of
    compute_signal_metrics plan signals candles_by_symbol =
        let pools = pool_symbols plan candles_by_symbol (empty_pools plan.horizons []) in
        let by_type = group_signals signals [] in
        do
          table ← figures_by_type plan pools by_type
          rates ← hit_rates plan.horizons by_type
          ok (record {
            sample_size = map_values length by_type;
            baseline_return = map_values mean_of pools;
            baseline_neff = sizes_of pools;
            mean_return = column (λ x. x.mean) table;
            mean_return_ci_low = column (λ x. x.mean_ci_low) table;
            mean_return_ci_high = column (λ x. x.mean_ci_high) table;
            edge = column (λ x. x.edge) table;
            edge_ci_low = column (λ x. x.edge_ci_low) table;
            edge_ci_high = column (λ x. x.edge_ci_high) table;
            neff = column (λ x. x.neff) table;
            hit_rate = rates;
          })
