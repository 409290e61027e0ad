-- ===== src/Backtest/Runs/Tests.antt =====
-- A run of the validation over the example.
use orvixa.Prelude.{ℕ, ◌≡◌, refl, List, [], ◌∷◌, Option, none, some}
use orvixa.Prelude.Int.{pos}
use orvixa.Prelude.Eq.{Text, codes, text_eq, ℕ_eq}
use orvixa.Prelude.Dict.{Dict, lookup, insert}
use orvixa.Prelude.Sets.{member}
use orvixa.Prelude.Result.{Result, ok, raised, value_error}
use orvixa.Prelude.Float.Fixed.{Fixed, fixed_float, runs}
use orvixa.Backtest.Bootstrap.{at_index}
use orvixa.Backtest.Metrics.{Captured}
use orvixa.Backtest.Replay.{interval_to_ms, real, Source, tags_by_base}
use orvixa.Backtest.Policy.{
  Validity, sign, same_sign, regime_conditional_candidate, insufficient_data,
  reason_insufficient_data, reason_agrees_with_global, block, allow, PolicyDecision, RegimeCell,
  Bucket, CellsByType,
}
use orvixa.Prelude.Float.{fmin, fmax}
use orvixa.Backtest.Runs.Allowed.{Grounds}
use orvixa.Backtest.Runs.Allowed.{run_policy_validation_allow}
use orvixa.Backtest.Runs.Provenance.{edge_evaluation_refused}
use orvixa.Backtest.Runs.{
  regimes_from, run_regime_validation, pipeline_correctness, edge_evaluation, Validation,
  run_signal_validation, run_policy_validation,
}
use orvixa.Backtest.Runs.Example.{settings, source, rng, plan}

abbrev WholeRun : Type 0
WholeRun =
    Validation Fixed
    × Dict Text (Dict Bucket (CellsByType Fixed))
    × Dict Text (Dict Bucket (Dict Text (PolicyDecision Fixed)))

abbrev outcome : Result WholeRun
outcome =
    run_policy_validation rng settings source plan (codes "1m") (codes "BTC" ∷ [])
      pipeline_correctness 1

abbrev bought : ℕ → ℕ → Option Fixed → Captured Fixed
bought ts close fwd = record {
  ts = ts;
  signal = codes "buy";
  confidence = pos 80;
  close = pos close;
  fwd_returns = (1, fwd) ∷ [];
}

-- The signals: one of high volatility, and one to buy at each set-back.
abbrev captured : List (Captured Fixed)
captured =
    bought 120_000 13_680 (some (pos 1_999))
    ∷ record {
      ts = 120_000;
      signal = codes "highvol";
      confidence = pos 100;
      close = pos 13_680;
      fwd_returns = (1, some (pos 1_999)) ∷ [];
    }
    ∷ bought 300_000 18_714 (some (pos 1_999))
    ∷ bought 480_000 25_599 (some (pos 1_999))
    ∷ bought 660_000 35_017 (some (pos 2_000))
    ∷ bought 840_000 47_902 (some (pos 1_999))
    ∷ bought 1_020_000 65_529 none
    ∷ []

abbrev both : Option Fixed → Dict Text (Dict ℕ (Option Fixed))
both x = (codes "buy", (1, x) ∷ []) ∷ (codes "highvol", (1, x) ∷ []) ∷ []

abbrev validation : Validation Fixed
validation = record {
  signals = (codes "BTC", captured) ∷ [];
  metrics = record {
    sample_size = (codes "buy", 6) ∷ (codes "highvol", 1) ∷ [];
    baseline_return = (1, some (pos 1_061)) ∷ [];
    baseline_neff = (1, some (pos 160_000)) ∷ [];
    mean_return = both (some (pos 1_999));
    mean_return_ci_low = both (some (pos 1_999));
    mean_return_ci_high = both (some (pos 1_999));
    edge = both (some (pos 938));
    edge_ci_low = both (some (pos 938));
    edge_ci_high = both (some (pos 938));
    neff =
        (codes "buy", (1, some (pos 50_000)) ∷ [])
        ∷ (codes "highvol", (1, some (pos 10_000)) ∷ [])
        ∷ [];
    hit_rate = (codes "buy", (1, some (pos 10_000)) ∷ []) ∷ [];
  };
  dataset_type = real;
  mode = pipeline_correctness;
}

abbrev cell : Validity → ℕ → ℕ → RegimeCell Fixed
cell label sample_size neff = record {
  classification = (1, label) ∷ [];
  edge = (1, some (pos 893)) ∷ [];
  edge_ci_low = (1, some (pos 893)) ∷ [];
  edge_ci_high = (1, some (pos 893)) ∷ [];
  clustered_fraction = pos 0;
  sample_size = sample_size;
  neff = (1, some (pos neff)) ∷ [];
}

abbrev bucket : Bucket
bucket = codes "trend=up,vol=high"

abbrev cells : CellsByType Fixed
cells =
    (codes "buy", cell regime_conditional_candidate 6 50_000)
    ∷ (codes "highvol", cell insufficient_data 1 10_000)
    ∷ []

abbrev by_bucket : Dict Bucket (CellsByType Fixed)
by_bucket = (bucket, cells) ∷ []

abbrev metrics : Dict Text (Dict Bucket (CellsByType Fixed))
metrics = (codes "BTC", by_bucket) ∷ []

abbrev decided : PolicyDecision Fixed
decided = record {
  decision = allow;
  reason = reason_agrees_with_global;
  regime_classification = regime_conditional_candidate;
  regime_edge = some (pos 893);
  global_edge = some (pos 938);
  sample_size = 6;
  neff = some (pos 50_000);
}

abbrev undecided : PolicyDecision Fixed
undecided = record {
  decision = block;
  reason = reason_insufficient_data;
  regime_classification = insufficient_data;
  regime_edge = some (pos 893);
  global_edge = some (pos 938);
  sample_size = 1;
  neff = some (pos 10_000);
}

abbrev types : Dict Text (PolicyDecision Fixed)
types = (codes "buy", decided) ∷ (codes "highvol", undecided) ∷ []

abbrev buckets : Dict Bucket (Dict Text (PolicyDecision Fixed))
buckets = (bucket, types) ∷ []

signals_run :
    run_signal_validation rng settings source plan
      (codes "1m")
      (codes "BTC" ∷ [])
      pipeline_correctness
    ≡ ok validation
unfolding run_signal_validation lookup insert member tags_by_base at_index fmin fmax runs
signals_run = refl

regimes_run :
    regimes_from rng settings source plan (codes "1m") plan validation.signals (codes "BTC" ∷ []) []
    ≡ ok metrics
unfolding regimes_from lookup insert member at_index fmin fmax runs
regimes_run = refl

outcome_runs : outcome ≡ ok (validation, metrics, (codes "BTC", buckets) ∷ [])
unfolding run_policy_validation run_regime_validation interval_to_ms lookup same_sign sign runs
outcome_runs = rw signals_run (rw regimes_run refl)

run_policy_validation_allow_example :
    Grounds rng settings source plan
      (codes "1m")
      validation
      metrics
      (codes "BTC")
      bucket
      (codes "buy")
      1
unfolding lookup
run_policy_validation_allow_example =
    run_policy_validation_allow rng settings source plan (codes "1m") (codes "BTC" ∷ [])
      pipeline_correctness 1 validation metrics ((codes "BTC", buckets) ∷ []) (codes "BTC") bucket
      (codes "buy") buckets types decided outcome_runs refl refl refl refl

-- The same source, where BTC is tagged.
abbrev tagged : Source Fixed
tagged = record source { list_all = ok ((codes "BTC", codes "synthetic_data" ∷ []) ∷ []) }

edge_evaluation_refused_example :
    run_signal_validation rng settings tagged plan (codes "1m") (codes "BTC" ∷ []) edge_evaluation
    ≡ raised value_error
unfolding member tags_by_base insert lookup
edge_evaluation_refused_example =
    edge_evaluation_refused rng settings tagged plan (codes "1m") (codes "BTC" ∷ [])
      ((codes "BTC", codes "synthetic_data" ∷ []) ∷ []) (codes "BTC") refl refl refl
