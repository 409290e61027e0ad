-- ===== src/Backtest/Runs.antt =====
-- The runs of the validation: `run_signal_validation` (src/orvixa/backtest/signal_validation.py),
-- `run_regime_validation` (src/orvixa/backtest/regime_validation.py) and `run_policy_validation`
-- (src/orvixa/backtest/policy_validation.py), each on the result of the one before.
mod Tests
pub mod Example
pub mod Provenance
pub mod Supported
pub mod Allowed
use orvixa.Prelude.{
  Option, ℕ, Bool, true, false, not, ◌||◌, List, [], ◌∷◌, none, some, if◌then◌else◌,
}
use orvixa.Prelude.Eq.{Text, text_eq, codes, text_beq}
use orvixa.Prelude.Dict.{Dict, insert, get_or}
use orvixa.Prelude.Result.{Result, ok, raised, value_error, ◌>>=◌}
use orvixa.Prelude.Float.{Float}
use orvixa.Feeds.Base.{Candle}
use orvixa.Analytics.Engine.{EngineSettings}
use orvixa.Backtest.Policy.{PolicyDecision, Bucket, CellsByType, compute_policy_decisions}
use orvixa.Backtest.Bootstrap.{Random}
use orvixa.Backtest.Metrics.{Captured, Plan, SignalMetrics, compute_signal_metrics}
use orvixa.Backtest.Metrics.Tables.{map_values}
use orvixa.Backtest.RegimeMetrics.{compute_regime_metrics}
use orvixa.Backtest.Replay.{
  Source, DatasetType, real, synthetic, classify_dataset, interval_to_ms, load_series,
  replay_symbols,
}

-- The two modes of `VALID_MODES`.
abbrev pub pipeline_correctness : Text
pipeline_correctness = codes "pipeline_correctness"

abbrev pub edge_evaluation : Text
edge_evaluation = codes "edge_evaluation"

unfoldable pub is_valid_mode : Text → Bool
is_valid_mode mode = text_beq mode pipeline_correctness || text_beq mode edge_evaluation

-- `dataset_type == SYNTHETIC and mode == EDGE_EVALUATION`
unfoldable pub is_refused : DatasetType → Text → Bool
is_refused real mode = false
is_refused synthetic mode = text_beq mode edge_evaluation

pub record Validation {ℓ} (F : Type ℓ) : Type ℓ where
  pub signals : Dict Text (List (Captured F))
  pub metrics : SignalMetrics F
  pub dataset_type : DatasetType
  pub mode : Text

module _ {ℓ} {F : Type ℓ} ⦃f : Float F⦄ {S : Type 0} (rng : Random F S) where
  module _ (settings : EngineSettings F) (source : Source F) (plan : Plan) (interval : Text) where
    -- The replay of the symbols and their metrics, with the defaults of the bootstrap.
    unfoldable pub validated : List Text → Text → DatasetType → Result (Validation F)
    unfolding replay_symbols interval_to_ms compute_signal_metrics map_values
    validated symbols mode dataset_type = do
      replayed ← replay_symbols settings source plan interval symbols []
      ms ← interval_to_ms interval
      let signals = map_values (λ x. x.0) replayed
      metrics ←
          compute_signal_metrics rng
            (record plan { interval_ms = ms; bootstrap_iterations = 1_000; bootstrap_seed = 0 })
            signals (map_values (λ x. x.1) replayed)
      ok (record { signals = signals; metrics = metrics; dataset_type = dataset_type; mode = mode })

    unfoldable pub run_signal_validation : List Text → Text → Result (Validation F)
    unfolding validated is_valid_mode is_refused classify_dataset
    run_signal_validation symbols mode = if not (is_valid_mode mode) then raised value_error else do
      dataset_type ← classify_dataset source symbols
      elim (is_refused dataset_type mode) [
        | true ↦ raised value_error
        | false ↦ validated symbols mode dataset_type
      ]

    -- The entry of a symbol, which is empty where the database does not know it.
    unfoldable pub series_metrics :
        Plan
        → List (Captured F)
        → Option (ℕ × List (Candle F))
        → Result (Dict Bucket (CellsByType F))
    unfolding compute_regime_metrics
    series_metrics timed entries none = ok []
    series_metrics timed entries (some (_, candles)) =
        compute_regime_metrics rng timed settings entries candles

    -- The loop of `run_regime_validation` over the symbols.
    unfoldable pub regimes_from :
        Plan
        → Dict Text (List (Captured F))
        → List Text
        → Dict Text (Dict Bucket (CellsByType F))
        → Result (Dict Text (Dict Bucket (CellsByType F)))
    unfolding load_series series_metrics
    regimes_from timed signals [] out = ok out
    regimes_from timed signals (base ∷ symbols) out = do
      series ← load_series source interval base
      table ← series_metrics timed (get_or base [] signals) series
      regimes_from timed signals symbols (insert base table out)

    unfoldable pub run_regime_validation :
        List Text → Text → Result (Validation F × Dict Text (Dict Bucket (CellsByType F)))
    unfolding run_signal_validation regimes_from
    run_regime_validation symbols mode = do
      result ← run_signal_validation symbols mode
      ms ← interval_to_ms interval
      regime_metrics ← regimes_from (record plan { interval_ms = ms }) result.signals symbols []
      ok (result, regime_metrics)

    -- What `run_policy_validation` adds to the result.
    unfoldable pub run_policy_validation :
        List Text
        → Text
        → ℕ
        → Result (
            Validation F
            × Dict Text (Dict Bucket (CellsByType F))
            × Dict Text (Dict Bucket (Dict Text (PolicyDecision F))))
    unfolding run_regime_validation compute_policy_decisions
    run_policy_validation symbols mode decision_horizon = do
      result ← run_regime_validation symbols mode
      policy_decisions ← compute_policy_decisions result.0.metrics.edge result.1 decision_horizon
      ok (result.0, result.1, policy_decisions)
