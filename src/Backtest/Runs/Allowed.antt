-- ===== src/Backtest/Runs/Allowed.antt =====
-- What a decision to allow in the result of `run_policy_validation` rests on.
use orvixa.Prelude.{
  ap, subst, ℕ, ◌≡◌, sym, ◌∙◌, List, [], ◌∷◌, Option, none, some, Bool-cases, inl, inr, arith,
}
use orvixa.Prelude.Eq.{Text, text_eq, ℕ_eq, text_beq, text_beq_iff}
use orvixa.Prelude.Dict.{Dict, lookup, insert, lookup-insert, get_or}
use orvixa.Prelude.Result.{ok, ok-bind}
use orvixa.Prelude.Float.{Float}
use orvixa.Feeds.Base.{Candle}
use orvixa.Analytics.Engine.{EngineSettings}
use orvixa.Backtest.Policy.{
  Validity, RegimeCell, PolicyDecision, Bucket, CellsByType, allow, global_edge_of,
  compute_policy_decisions,
}
use orvixa.Backtest.Policy.Tables.{compute_policy_decisions-decide}
use orvixa.Backtest.RegimeMetrics.{RegimeTag, bucket_key}
use orvixa.Backtest.RegimeMetrics.Selected.{signals_in}
use orvixa.Backtest.Bootstrap.{Random}
use orvixa.Backtest.Metrics.{Captured, Plan}
use orvixa.Backtest.RegimeMetrics.Labelled.{IsLabelled, compute_regime_metrics-AllLabelled}
use orvixa.Backtest.Replay.{Source, load_series, interval_to_ms}
use orvixa.Backtest.Runs.{
  series_metrics, Validation, regimes_from, run_signal_validation, run_regime_validation,
  run_policy_validation,
}
use orvixa.Backtest.Runs.Supported.{Supports, has_label, allow-Supports}

module _ {ℓ} {F : Type ℓ} ⦃f : Float F⦄ {S : Type 0} (rng : Random F S)
    (settings : EngineSettings F) (source : Source F) (plan : Plan) (interval : Text) where
  -- The cells of a symbol are labelled for its signals in a run, over the candles that the database has
  -- of it.
  abbrev CellsLabelled :
      Plan → Dict Text (List (Captured F)) → Text → Dict Bucket (CellsByType F) → Type ℓ
  CellsLabelled timed signals symbol table =
      (bucket : Bucket) (cells : CellsByType F) (signal : Text) (cell : RegimeCell F) (horizon : ℕ)
      (label : Validity)
      → lookup bucket table ≡ some cells
      → lookup signal cells ≡ some cell
      → lookup horizon cell.classification ≡ some label
      → (id : ℕ) × (candles : List (Candle F)) × (regime : RegimeTag) × (bucket_key regime ≡ bucket)
        × (load_series source interval symbol ≡ ok (some (id, candles)))
        × IsLabelled (signals_in timed settings (get_or symbol [] signals) candles regime signal)
            cell horizon

  abbrev SymbolsLabelled :
      Plan → Dict Text (List (Captured F)) → Dict Text (Dict Bucket (CellsByType F)) → Type ℓ
  SymbolsLabelled timed signals out =
      (symbol : Text) (table : Dict Bucket (CellsByType F))
      → lookup symbol out ≡ some table
      → CellsLabelled timed signals symbol table

  insert-SymbolsLabelled :
      (timed : Plan) (signals : Dict Text (List (Captured F))) (base : Text)
      (table : Dict Bucket (CellsByType F)) (out : Dict Text (Dict Bucket (CellsByType F)))
      → CellsLabelled timed signals base table
      → SymbolsLabelled timed signals out
      → SymbolsLabelled timed signals (insert base table out)
  insert-SymbolsLabelled timed signals base table out fresh h symbol t l =
      let found = sym (lookup-insert base symbol table out) ∙ l in
      elim (Bool-cases (text_beq base symbol)) [
        | inl same ↦
            let equal : base ≡ symbol = (text_beq_iff base symbol).0 same in
            subst (λ x. CellsLabelled timed signals x t) equal
              (subst (CellsLabelled timed signals base) (ground arith) fresh)
        | inr other ↦ h symbol t (ground arith)
      ]

  empty-SymbolsLabelled :
      (timed : Plan) (signals : Dict Text (List (Captured F))) → SymbolsLabelled timed signals []
  unfolding lookup
  empty-SymbolsLabelled timed signals symbol table l = ground arith

  no_cells : (bucket : Bucket) (cells : CellsByType F) → ¬ (lookup bucket [] ≡ some cells)
  unfolding lookup
  no_cells bucket cells l = ground arith

  series_metrics-CellsLabelled :
      (timed : Plan) (signals : Dict Text (List (Captured F))) (base : Text)
      (series : Option (ℕ × List (Candle F))) (table : Dict Bucket (CellsByType F))
      → load_series source interval base ≡ ok series
      → series_metrics rng settings source plan interval timed (get_or base [] signals) series
        ≡ ok table
      → CellsLabelled timed signals base table
  unfolding series_metrics
  series_metrics-CellsLabelled timed signals base none table loaded e bucket cells signal cell
        horizon label lb lc there =
      let empty : [] ≡ table = ground arith in
      absurd (no_cells bucket cells (ap (lookup bucket) empty ∙ lb))
  series_metrics-CellsLabelled timed signals base (some (id, candles)) table loaded e bucket cells
        signal cell horizon label lb lc there =
      let (tagged, (regime, key, chosen), labelled) =
        compute_regime_metrics-AllLabelled rng timed settings (get_or base [] signals) candles table
          e bucket cells lb signal cell horizon label lc there in
      (id, candles, regime, key, loaded, subst (λ ts. IsLabelled ts cell horizon) chosen labelled)

  regimes_from-SymbolsLabelled :
      (timed : Plan) (signals : Dict Text (List (Captured F))) (symbols : List Text)
      (before out : Dict Text (Dict Bucket (CellsByType F)))
      → regimes_from rng settings source plan interval timed signals symbols before ≡ ok out
      → SymbolsLabelled timed signals before
      → SymbolsLabelled timed signals out
  unfolding regimes_from
  regimes_from-SymbolsLabelled timed signals [] before out e h =
      subst (SymbolsLabelled timed signals) (ground arith) h
  regimes_from-SymbolsLabelled timed signals (base ∷ symbols) before out e h =
      let (series, loaded, e1) = ok-bind (load_series source interval base) e in
      let entries = get_or base [] signals in
      let (table, made, e2) =
        ok-bind (series_metrics rng settings source plan interval timed entries series) e1 in
      regimes_from-SymbolsLabelled timed signals symbols (insert base table before) out e2 (
        insert-SymbolsLabelled timed signals base table before
          (series_metrics-CellsLabelled timed signals base series table loaded made) h)

  run_regime_validation-SymbolsLabelled :
      (symbols : List Text) (mode : Text) (v : Validation F)
      (metrics : Dict Text (Dict Bucket (CellsByType F)))
      → run_regime_validation rng settings source plan interval symbols mode ≡ ok (v, metrics)
      → (ms : ℕ) × (interval_to_ms interval ≡ ok ms)
        × SymbolsLabelled (record plan { interval_ms = ms }) v.signals metrics
  unfolding run_regime_validation
  run_regime_validation-SymbolsLabelled symbols mode v metrics e =
      let (result, _, e1) =
        ok-bind (run_signal_validation rng settings source plan interval symbols mode) e in
      let (ms, timed, e2) = ok-bind (interval_to_ms interval) e1 in
      let with_ms : Plan = record plan { interval_ms = ms } in
      let (out, made, e3) =
        ok-bind (regimes_from rng settings source plan interval with_ms result.signals symbols [])
          e2 in
      let all =
        regimes_from-SymbolsLabelled with_ms result.signals symbols [] out made
          (empty-SymbolsLabelled with_ms result.signals) in
      let same_run : result ≡ v = ground arith in
      let same_metrics : out ≡ metrics = ground arith in
      (
        ms,
        timed,
        subst (λ r. SymbolsLabelled with_ms r.signals metrics) same_run
            (subst (SymbolsLabelled with_ms result.signals) same_metrics all),
      )

  policy-parts :
      (symbols : List Text) (mode : Text) (horizon : ℕ) (v : Validation F)
      (metrics : Dict Text (Dict Bucket (CellsByType F)))
      (decisions : Dict Text (Dict Bucket (Dict Text (PolicyDecision F))))
      → run_policy_validation rng settings source plan interval symbols mode horizon
        ≡ ok (v, metrics, decisions)
      → (run_regime_validation rng settings source plan interval symbols mode ≡ ok (v, metrics))
        × (compute_policy_decisions v.metrics.edge metrics horizon ≡ ok decisions)
  unfolding run_policy_validation
  policy-parts symbols mode horizon v metrics decisions e =
      let (result, ran, e1) =
        ok-bind (run_regime_validation rng settings source plan interval symbols mode) e in
      let (table, computed, same) =
        ok-bind (compute_policy_decisions result.0.metrics.edge result.1 horizon) e1 in
      let same_v : result.0 ≡ v = ground arith in
      let same_metrics : result.1 ≡ metrics = ground arith in
      let same_table : table ≡ decisions = ground arith in (ground arith, ground arith)

  -- What a decision to allow rests on: the symbol's candles in the database, a regime with the key of
  -- the bucket, and a cell of the regime metrics with the figures that support the decision, for the
  -- signals of the symbol that have the type and come at the time of a candle with the regime.
  pub record Grounds (v : Validation F) (metrics : Dict Text (Dict Bucket (CellsByType F)))
      (symbol : Text) (bucket : Bucket) (signal : Text) (horizon : ℕ) : Type ℓ where
    pub ms : ℕ
    pub timed : interval_to_ms interval ≡ ok ms
    pub id : ℕ
    pub candles : List (Candle F)
    pub loaded : load_series source interval symbol ≡ ok (some (id, candles))
    pub regime : RegimeTag
    pub keyed : bucket_key regime ≡ bucket
    pub by_bucket : Dict Bucket (CellsByType F)
    pub cells : CellsByType F
    pub cell : RegimeCell F
    pub symbol_there : lookup symbol metrics ≡ some by_bucket
    pub bucket_there : lookup bucket by_bucket ≡ some cells
    pub cell_there : lookup signal cells ≡ some cell
    pub supported :
        Supports
          (signals_in
            (record plan { interval_ms = ms })
            settings
            (get_or symbol [] v.signals)
            candles
            regime
            signal)
          cell
          horizon
          (global_edge_of v.metrics.edge signal horizon)

  -- In the result of `run_policy_validation`, every decision to allow stands for a cell of the regime
  -- metrics, of the same symbol, bucket and type, whose signals are those that the run captured of the
  -- symbol, of the type, at the time of a candle with a regime of the bucket; their number is the sample
  -- size of the cell, and the share of those tagged as clustered is not above a half. At the horizon of
  -- the decision the effective size does not compare as below 5, the interval of the edge does not span
  -- zero, and the edge in the regime and the global edge of the type are both positive or both negative.
  pub run_policy_validation_allow :
      (symbols : List Text) (mode : Text) (horizon : ℕ) (v : Validation F)
      (metrics : Dict Text (Dict Bucket (CellsByType F)))
      (decisions : Dict Text (Dict Bucket (Dict Text (PolicyDecision F)))) (symbol : Text)
      (bucket : Bucket) (signal : Text) (buckets : Dict Bucket (Dict Text (PolicyDecision F)))
      (types : Dict Text (PolicyDecision F)) (d : PolicyDecision F)
      → run_policy_validation rng settings source plan interval symbols mode horizon
        ≡ ok (v, metrics, decisions)
      → lookup symbol decisions ≡ some buckets
      → lookup bucket buckets ≡ some types
      → lookup signal types ≡ some d
      → d.decision ≡ allow
      → Grounds v metrics symbol bucket signal horizon
  unfolding run_policy_validation
  run_policy_validation_allow symbols mode horizon v metrics decisions symbol bucket signal buckets
        types d e a b c is_allow =
      let (ran, computed) = policy-parts symbols mode horizon v metrics decisions e in
      let (ms, timed, labelled) =
        run_regime_validation-SymbolsLabelled symbols mode v metrics ran in
      let (by_bucket, cells, cell, la, lb, lc, decided) =
        compute_policy_decisions-decide v.metrics.edge horizon metrics decisions symbol bucket
          signal buckets types d computed a b c in
      let global = global_edge_of v.metrics.edge signal horizon in
      let (label, there) = has_label cell global horizon d decided in
      let (id, candles, regime, keyed, loaded, is_labelled) =
        labelled symbol by_bucket la bucket cells signal cell horizon label lb lc there in
      record {
        ms = ms;
        timed = timed;
        id = id;
        candles = candles;
        loaded = loaded;
        regime = regime;
        keyed = keyed;
        by_bucket = by_bucket;
        cells = cells;
        cell = cell;
        symbol_there = la;
        bucket_there = lb;
        cell_there = lc;
        supported = allow-Supports _ cell global horizon d is_labelled decided is_allow;
      }
