-- ===== src/Backtest/RegimeMetrics/Labelled.antt =====
-- The cells of `compute_regime_metrics` are labelled by their own figures.
use orvixa.Prelude.{
  All, ap, length, count_if, subst, sym, ◌∙◌, ℕ, ◌+◌, ◌≡◌, refl, List, [], ◌∷◌, map, Option, some,
  arith, inl, inr, Bool-cases,
}
use orvixa.Prelude.Eq.{text_beq_iff, text_beq, Text, text_eq, pair_eq, ℕ_eq, Eq}
use orvixa.Prelude.Dict.{Dict, lookup, insert, get_or, lookup-insert}
use orvixa.Prelude.Result.{ok-bind, ok}
use orvixa.Prelude.Float.{Float, of_ℕ}
use orvixa.Backtest.Clusters.{clustered, isolated}
use orvixa.Backtest.RegimeMetrics.Grouped.{clustered_number}
use orvixa.Backtest.RegimeMetrics.Selected.{signals_in, grouped-chosen}
use orvixa.Feeds.Base.{Candle}
use orvixa.Analytics.Engine.{EngineSettings}
use orvixa.Backtest.Policy.{Validity, RegimeCell, Bucket, CellsByType, fill}
use orvixa.Backtest.Policy.Tables.{fill-entry}
use orvixa.Backtest.Policy.Decided.{IsClassified}
use orvixa.Backtest.Bootstrap.{Random}
use orvixa.Backtest.Metrics.{Captured, Plan, Figures, figures_of}
use orvixa.Backtest.Metrics.Tables.{sum_codes, map_values}
use orvixa.Backtest.RegimeMetrics.{
  pools_by_regime, grouped, bucket_key, empty_pools, is_clustered_tag, cell_with, RegimeTag, Tagged,
  clustered_fraction_of, label_of, cell_of, regime_cells, compute_regime_metrics,
}

module _ {κ ι ο} {K : Type κ} {V : Type ι} {W : Type ο} ⦃e : Eq K⦄ (g : V → W) where
  lookup-map_values :
      (d : Dict K V) (k : K) (v : V) → lookup k d ≡ some v → lookup k (map_values g d) ≡ some (g v)
  unfolding lookup map_values
  lookup-map_values [] k v l = ground arith
  lookup-map_values ((j, w) ∷ d) k v l = elim (Bool-cases (e.beq j k)) [
    | inl same ↦ ground arith
    | inr other ↦ rw other (lookup-map_values d k v (ground arith))
  ]

  -- A value in the result comes from one in the dict.
  source_of :
      (d : Dict K V) (k : K) (w : W)
      → lookup k (map_values g d) ≡ some w
      → (v : V) × (lookup k d ≡ some v)
  unfolding lookup map_values
  source_of [] k w l = ground arith
  source_of ((j, v) ∷ d) k w l = elim (Bool-cases (e.beq j k)) [
    | inl same ↦ (v, rw same refl)
    | inr other ↦ let (u, found) = source_of d k w (ground arith) in (u, rw other found)
  ]

module _ {ℓ} {F : Type ℓ} ⦃f : Float F⦄ where
  -- The label at a horizon is the one of the figures there, with the share of the signals of the cell
  -- that are clustered, which the cell keeps rounded to 4 places.
  abbrev pub IsLabelled : Tagged F → RegimeCell F → ℕ → Type ℓ
  IsLabelled tagged cell horizon =
      let fraction = f.div (of_ℕ (clustered_number tagged)) (of_ℕ (length tagged)) in
      (neff : Option F) × (low : Option F) × (high : Option F) × (edge : Option F)
      × (cell.clustered_fraction ≡ f.round_to 4 fraction)
      × (cell.sample_size ≡ length tagged)
      × IsClassified cell horizon fraction neff low high edge

  -- The signals that the cell of a type in a bucket is about: those of a regime with the bucket's key.
  abbrev pub Chooses : (RegimeTag → Text → Tagged F) → Bucket → Text → Tagged F → Type ℓ
  Chooses signals bucket signal tagged =
      (regime : RegimeTag) × (bucket_key regime ≡ bucket) × (tagged ≡ signals regime signal)

  -- At every horizon at which it has a label, a cell is labelled for its signals.
  abbrev pub AreLabelled : (RegimeTag → Text → Tagged F) → Bucket → CellsByType F → Type ℓ
  AreLabelled signals bucket cells =
      (signal : Text) (cell : RegimeCell F) (horizon : ℕ) (label : Validity)
      → lookup signal cells ≡ some cell
      → lookup horizon cell.classification ≡ some label
      → (tagged : Tagged F) × Chooses signals bucket signal tagged × IsLabelled tagged cell horizon

  -- Every cell of the table.
  abbrev pub AllLabelled : (RegimeTag → Text → Tagged F) → Dict Bucket (CellsByType F) → Type ℓ
  AllLabelled signals table =
      (bucket : Bucket) (cells : CellsByType F)
      → lookup bucket table ≡ some cells
      → AreLabelled signals bucket cells

  pub empty-AllLabelled : (signals : RegimeTag → Text → Tagged F) → AllLabelled signals []
  unfolding lookup
  empty-AllLabelled signals bucket cells l = ground arith

  insert-AllLabelled :
      (signals : RegimeTag → Text → Tagged F) (bucket : Bucket) (cells : CellsByType F)
      (table : Dict Bucket (CellsByType F))
      → AreLabelled signals bucket cells
      → AllLabelled signals table
      → AllLabelled signals (insert bucket cells table)
  insert-AllLabelled signals bucket cells table h all b c l =
      let found = sym (lookup-insert bucket b cells table) ∙ l in
      elim (Bool-cases (text_beq bucket b)) [
        | inl same ↦
            let equal : bucket ≡ b = (text_beq_iff bucket b).0 same in
            subst (λ x. AreLabelled signals x c) equal
              (subst (AreLabelled signals bucket) (ground arith) h)
        | inr other ↦ all b c (ground arith)
      ]

  count_clustered :
      (tagged : Tagged F) → count_if (λ x. is_clustered_tag x.1) tagged ≡ clustered_number tagged
  unfolding is_clustered_tag clustered_number
  count_clustered [] = refl
  count_clustered ((_, clustered) ∷ tagged) = ground (arith, count_clustered tagged)
  count_clustered ((_, isolated) ∷ tagged) = ground (arith, count_clustered tagged)

  clustered_count :
      (tagged : Tagged F)
      → clustered_fraction_of tagged ≡ f.div (of_ℕ (clustered_number tagged)) (of_ℕ (length tagged))
  unfolding clustered_fraction_of
  clustered_count tagged = ap (λ n. f.div (of_ℕ n) (of_ℕ (length tagged))) (count_clustered tagged)

  length-first : (tagged : Tagged F) → length (map (λ x. x.0) tagged) ≡ length tagged
  length-first [] = refl
  length-first (x ∷ tagged) = ground (arith, length-first tagged)

  cell_with-IsLabelled :
      (tagged : Tagged F) (fraction : F) (sample_size : ℕ) (figures : Dict ℕ (Figures F))
      (horizon : ℕ) (label : Validity)
      → fraction ≡ f.div (of_ℕ (clustered_number tagged)) (of_ℕ (length tagged))
      → sample_size ≡ length tagged
      → lookup horizon (cell_with fraction sample_size figures).classification ≡ some label
      → IsLabelled tagged (cell_with fraction sample_size figures) horizon
  unfolding cell_with label_of
  cell_with-IsLabelled tagged fraction sample_size figures horizon label share size l =
      let (x, found) = source_of (label_of fraction) figures horizon label l in
      (
        x.neff,
        x.edge_ci_low,
        x.edge_ci_high,
        x.edge,
        ap (f.round_to 4) share,
        size,
        subst
            (λ p.
              IsClassified (cell_with fraction sample_size figures) horizon p x.neff x.edge_ci_low
                x.edge_ci_high x.edge)
            share
            (record {
              neff_there = lookup-map_values (λ x. x.neff) figures horizon x found;
              low_there = lookup-map_values (λ x. x.edge_ci_low) figures horizon x found;
              high_there = lookup-map_values (λ x. x.edge_ci_high) figures horizon x found;
              edge_there = lookup-map_values (λ x. x.edge) figures horizon x found;
              labelled = lookup-map_values (label_of fraction) figures horizon x found;
            }),
      )

  module _ {S : Type 0} (rng : Random F S) (plan : Plan) where
    cell_of-IsLabelled :
        (pool : Dict ℕ (List F)) (offset : ℕ) (tagged : Tagged F) (cell : RegimeCell F)
        (horizon : ℕ) (label : Validity)
        → cell_of rng plan pool offset tagged ≡ ok cell
        → lookup horizon cell.classification ≡ some label
        → IsLabelled tagged cell horizon
    unfolding cell_of
    cell_of-IsLabelled pool offset tagged cell horizon label e l =
        let n = length (map (λ x. x.0) tagged) in
        let (figures, _, made) =
          ok-bind (figures_of rng plan pool offset (map (λ x. x.0) tagged)) e in
        let same : cell_with (clustered_fraction_of tagged) n figures ≡ cell = ground arith in
        subst (λ c. lookup horizon c.classification ≡ some label → IsLabelled tagged c horizon) same
          (cell_with-IsLabelled tagged (clustered_fraction_of tagged) n figures horizon label
            (clustered_count tagged) (length-first tagged))
          l

    module _ (signals : RegimeTag → Text → Tagged F) where
      -- The groups of a regime are its signals.
      abbrev AreGroups : RegimeTag × Dict Text (Tagged F) → Type ℓ
      AreGroups entry =
          (signal : Text) (tagged : Tagged F)
          → lookup signal entry.1 ≡ some tagged
          → tagged ≡ signals entry.0 signal

      fill-AreLabelled :
          (pool : Dict ℕ (List F)) (offset : Text → ℕ) (tag : RegimeTag)
          (by_type : Dict Text (Tagged F)) (cells : CellsByType F)
          → AreGroups (tag, by_type)
          → fill (λ sig_type tagged. cell_of rng plan pool (offset sig_type) tagged) by_type
            ≡ ok cells
          → AreLabelled signals (bucket_key tag) cells
      fill-AreLabelled pool offset tag by_type cells groups e signal cell horizon label l =
          let (tagged, found, made) =
            fill-entry (λ sig_type tagged. cell_of rng plan pool (offset sig_type) tagged) by_type
              cells signal cell e l in
          λ there. (
            tagged,
            (tag, refl, groups signal tagged found),
            cell_of-IsLabelled pool (offset signal) tagged cell horizon label made there,
          )

      regime_cells-AllLabelled :
          (pools : Dict RegimeTag (Dict ℕ (List F)))
          (by_bucket : List (RegimeTag × Dict Text (Tagged F)))
          (before out : Dict Bucket (CellsByType F))
          → All AreGroups by_bucket
          → regime_cells rng plan pools by_bucket before ≡ ok out
          → AllLabelled signals before
          → AllLabelled signals out
      unfolding regime_cells
      regime_cells-AllLabelled pools [] before out groups e h =
          subst (AllLabelled signals) (ground arith) h
      regime_cells-AllLabelled pools ((tag, by_type) ∷ by_bucket) before out groups e h =
          let pool = get_or tag (empty_pools plan.horizons []) pools in
          let offset : Text → ℕ = λ sig_type. sum_codes sig_type + sum_codes (bucket_key tag) in
          let (cells, filled, made) =
            ok-bind
              (fill (λ sig_type tagged. cell_of rng plan pool (offset sig_type) tagged) by_type)
              e in
          regime_cells-AllLabelled pools by_bucket (insert (bucket_key tag) cells before) out
            groups.1 made
            (insert-AllLabelled signals (bucket_key tag) cells before
              (fill-AreLabelled pool offset tag by_type cells groups.0 filled) h)

    -- Every cell that `compute_regime_metrics` returns.
    pub compute_regime_metrics-AllLabelled :
        (settings : EngineSettings F) (signals : List (Captured F)) (candles : List (Candle F))
        (out : Dict Bucket (CellsByType F))
        → compute_regime_metrics rng plan settings signals candles ≡ ok out
        → AllLabelled (signals_in plan settings signals candles) out
    unfolding compute_regime_metrics
    compute_regime_metrics-AllLabelled settings signals [] out e =
        subst (AllLabelled (signals_in plan settings signals [])) (ground arith)
          (empty-AllLabelled (signals_in plan settings signals []))
    compute_regime_metrics-AllLabelled settings signals (c ∷ cs) out e =
        let (by_bucket, groups, made) = ok-bind (grouped plan settings signals (c ∷ cs)) e in
        let sent = signals_in plan settings signals (c ∷ cs) in
        regime_cells-AllLabelled sent (pools_by_regime plan settings (c ∷ cs)) by_bucket [] out
          (grouped-chosen plan settings signals (c ∷ cs) by_bucket groups) made
          (empty-AllLabelled sent)
