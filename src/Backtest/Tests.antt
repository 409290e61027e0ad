-- ===== src/Backtest/Tests.antt =====
-- Policy decisions, forward returns and cluster tags on concrete data.
use orvixa.Prelude.{
  ◌++◌, arith, Option, ℕ, ◌≡◌, ◌+◌, ◌*◌, ◌↔◌, refl, true, false, ◌||◌, List, [], ◌∷◌, none, some,
  get_elem?, take, drop,
}
use orvixa.Prelude.Int.{pos}
use orvixa.Prelude.Eq.{Text, pair_eq, codes, text_eq, ℕ_eq}
use orvixa.Prelude.Dict.{Dict, insert, lookup}
use orvixa.Prelude.Result.{ok}
use orvixa.Prelude.Float.{◌≼◌, fmax, nought, of_ℕ}
use orvixa.Prelude.Float.Fixed.{Fixed, fixed_float, runs}
use orvixa.Feeds.Base.{Candle}
use orvixa.Backtest.Policy.{
  Bucket, fill, global_edge_of, compute_policy_decisions, Validity, regime_conditional_candidate,
  diagnostic_only, allow, reduce, reason_agrees_with_global, RegimeCell, PolicyDecision,
  classify_validity, spans_zero, is_clustered, decide, same_sign, sign,
}
use orvixa.Backtest.Policy.Decided.{IsClassified, reason_for, decide_diagnostic_lem}
use orvixa.Prelude.Float.Lawful.{Fixed-IsOrdered}
use orvixa.Backtest.SampleSize.{effective_sample_size, raw_size, products, range_from}
use orvixa.Backtest.SampleSize.Bounded.{effective_sample_size-range}
use orvixa.Backtest.Returns.{forward_returns}
use orvixa.Backtest.Returns.Stable.{forward_returns_stable}
use orvixa.Backtest.Returns.Targets.{IsFirst, forward_returns_target}
use orvixa.Backtest.Clusters.{Entry, compute_cluster_tags, clustered}
use orvixa.Backtest.Clusters.Within.{HasPrior, cluster_tags_lem}

-- An edge of 1% with the interval from `low` to 3%, and a quarter of the signals clustered.
abbrev cell : Fixed → Validity → RegimeCell Fixed
cell low label = record {
  classification = (5, label) ∷ [];
  edge = (5, some (pos 100)) ∷ [];
  edge_ci_low = (5, some low) ∷ [];
  edge_ci_high = (5, some (pos 300)) ∷ [];
  clustered_fraction = pos 2_500;
  sample_size = 40;
  neff = (5, some (pos 200_000)) ∷ [];
}

abbrev firm : RegimeCell Fixed
firm = cell (pos 50) regime_conditional_candidate

firm-IsClassified :
    IsClassified firm 5
      (pos 2_500)
      (some (pos 200_000))
      (some (pos 50))
      (some (pos 300))
      (some (pos 100))
unfolding lookup classify_validity runs
firm-IsClassified = record {
  neff_there = refl;
  low_there = refl;
  high_there = refl;
  edge_there = refl;
  labelled = refl;
}

-- Clustered just above a half, which is stored as a half.
abbrev rounded_half : RegimeCell Fixed
rounded_half = record firm {
  classification = (5, diagnostic_only) ∷ [];
  clustered_fraction = pos 5_000;
}

rounded_half-IsClassified :
    IsClassified rounded_half 5
      (pos 5_001)
      (some (pos 200_000))
      (some (pos 50))
      (some (pos 300))
      (some (pos 100))
unfolding lookup classify_validity runs
rounded_half-IsClassified = record {
  neff_there = refl;
  low_there = refl;
  high_there = refl;
  edge_there = refl;
  labelled = refl;
}

abbrev firm_decision : PolicyDecision Fixed
firm_decision = record {
  decision = allow;
  reason = reason_agrees_with_global;
  regime_classification = regime_conditional_candidate;
  regime_edge = some (pos 100);
  global_edge = some (pos 70);
  sample_size = 40;
  neff = some (pos 200_000);
}

decide_runs : decide firm (some (pos 70)) 5 ≡ ok firm_decision
unfolding decide lookup same_sign sign runs
decide_runs = refl

-- The reason given is the interval, which excludes zero.
decide_diagnostic_lem_example :
    (l : Fixed) × (u : Fixed) × (d : PolicyDecision Fixed) × (some (pos 50) ≡ some l)
    × (some (pos 300) ≡ some u)
    × (decide rounded_half none 5 ≡ ok d)
    × (d.decision ≡ reduce)
    × (d.reason ≡ reason_for l u (pos 5_000))
    × ((spans_zero l u || is_clustered {F = Fixed} (pos 5_001)) ≡ true)
unfolding classify_validity runs
decide_diagnostic_lem_example =
    decide_diagnostic_lem rounded_half none 5 rounded_half-IsClassified refl

abbrev candle : ℕ → ℕ → Candle Fixed
candle ts close = record {
  symbol = codes "BTC";
  ts = ts;
  open_price = pos close;
  high = pos close;
  low = pos close;
  close = pos close;
  volume = pos 0;
  quote_volume = pos 0;
  trades = 0;
  closed = true;
  taker_buy_volume = pos 0;
}

-- The candle of the third minute is missing.
abbrev candles : List (Candle Fixed)
candles =
    candle 0 10_000 ∷ candle 60_000 10_000 ∷ candle 120_000 11_000 ∷ candle 240_000 12_000 ∷ []

forward_returns_run :
    lookup 2 (forward_returns candles 0 (2 ∷ []) 1 60_000) ≡ some (some (pos 2_000))
unfolding forward_returns runs lookup insert
forward_returns_run = refl

forward_returns_target_example :
    (entry : Candle Fixed) × (target : Candle Fixed) × (get_elem? candles 1 ≡ some entry)
    × IsFirst (drop 1 candles) (entry.ts + 2 * 60_000) target
    × (fixed_float.eq entry.close nought ≡ false)
    × (pos 2_000 ≡ fixed_float.sub (fixed_float.div target.close entry.close) (fixed_float.lit 1 1))
forward_returns_target_example =
    forward_returns_target candles 0 (2 ∷ []) 1 60_000 2 (pos 2_000) forward_returns_run

forward_returns_stable_example :
    lookup 2 (forward_returns (candles ++ candle 300_000 15_000 ∷ []) 0 (2 ∷ []) 1 60_000)
    ≡ some (some (pos 2_000))
forward_returns_stable_example =
    forward_returns_stable (candle 300_000 15_000 ∷ []) candles 0 (2 ∷ []) 1 60_000 2 (pos 2_000)
      forward_returns_run

abbrev signals : List Entry
signals =
    record { signal = codes "buy"; ts = 0 } ∷ record { signal = codes "buy"; ts = 300_000 } ∷ []

-- Five minutes, exactly the window.
cluster_tags_lem_example :
    (get_elem? (compute_cluster_tags signals 5 60_000) 1 ≡ some clustered)
    ↔ HasPrior 300_000 (take 1 signals) (record { signal = codes "buy"; ts = 300_000 })
cluster_tags_lem_example =
    cluster_tags_lem signals 5 60_000 1 (record { signal = codes "buy"; ts = 300_000 }) refl

abbrev edges : Dict Text (Dict ℕ (Option Fixed))
edges = (codes "buy", (5, some (pos 70)) ∷ []) ∷ []

abbrev cells : Dict Text (RegimeCell Fixed)
cells = (codes "buy", firm) ∷ []

abbrev bucket : Bucket
bucket = codes "trend=up,vol=low"

abbrev regime_metrics : Dict Text (Dict Bucket (Dict Text (RegimeCell Fixed)))
regime_metrics = (codes "BTC", (bucket, cells) ∷ []) ∷ []

abbrev decisions : Dict Text (PolicyDecision Fixed)
decisions = (codes "buy", firm_decision) ∷ []

abbrev by_bucket : Dict Bucket (Dict Text (PolicyDecision Fixed))
by_bucket = (bucket, decisions) ∷ []

table_run : compute_policy_decisions edges regime_metrics 5 ≡ ok ((codes "BTC", by_bucket) ∷ [])
unfolding compute_policy_decisions fill decide lookup same_sign sign runs global_edge_of
table_run = refl

abbrev samples : List Fixed
samples = pos 100 ∷ pos 200 ∷ pos 100 ∷ []

effective_sample_size-range_example :
    (x : Fixed) × (effective_sample_size samples 1 ≡ some x)
    × (◌≼◌ {F = Fixed} (of_ℕ 1) x)
    × (x ≼ of_ℕ 3)
unfolding raw_size products range_from fmax runs
effective_sample_size-range_example =
    effective_sample_size-range Fixed-IsOrdered samples 1 (omega arith) refl
