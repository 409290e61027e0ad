-- ===== src/Backtest/RegimeMetrics/Selected.antt =====
-- The signals of a cell of `compute_regime_metrics`, from the signals and the candles of a symbol.
use orvixa.Prelude.{◌≡◌, sym, ap, ◌∙◌, List, [], ◌∷◌, map, some, All, arith}
use orvixa.Prelude.Eq.{Text, text_eq, pair_eq, ℕ_eq}
use orvixa.Prelude.Dict.{Distinct, Dict, lookup}
use orvixa.Prelude.Result.{ok, ok-bind}
use orvixa.Prelude.Entries.{entries-All}
use orvixa.Prelude.Float.{Float}
use orvixa.Feeds.Base.{Candle}
use orvixa.Analytics.Engine.{EngineSettings}
use orvixa.Backtest.Clusters.{ClusterTag, compute_cluster_tags}
use orvixa.Backtest.Metrics.{Captured, Plan}
use orvixa.Backtest.RegimeMetrics.{
  get_or, RegimeTag, Tagged, index_times, entry_of, compute_regime_tags, zip_strict, grouped,
}
use orvixa.Backtest.RegimeMetrics.Grouped.{
  group, chosen, by_bucket_from-chosen, by_bucket_from-Distinct,
}

group-lookup {ℓ} :
    {F : Type ℓ} (out : Dict RegimeTag (Dict Text (Tagged F))) (regime : RegimeTag)
    (by_type : Dict Text (Tagged F)) (signal : Text) (tagged : Tagged F)
    → lookup regime out ≡ some by_type
    → lookup signal by_type ≡ some tagged
    → get_or signal [] (get_or regime [] out) ≡ tagged
group-lookup out regime by_type signal tagged l m = ground arith

module _ {ℓ} {F : Type ℓ} ⦃f : Float F⦄ (plan : Plan) (settings : EngineSettings F)
    (signals : List (Captured F)) (candles : List (Candle F)) where
  -- The signals with their cluster tags, side by side.
  abbrev pub side_by_side : List (Captured F) → List ClusterTag → Tagged F
  side_by_side (e ∷ es) (t ∷ ts) = (e, t) ∷ side_by_side es ts
  side_by_side _ _ = []

  -- The signals of a cell: of its type, and at the time of a candle with its regime.
  pub signals_in : RegimeTag → Text → Tagged F
  signals_in regime signal =
      chosen (index_times candles 0 []) (compute_regime_tags settings candles) regime signal (
        side_by_side signals (
          compute_cluster_tags (map entry_of signals) settings.events.breakout_window
            plan.interval_ms))

  zipped :
      (es : List (Captured F)) (ts : List ClusterTag) (tagged : Tagged F)
      → zip_strict es ts ≡ ok tagged
      → side_by_side es ts ≡ tagged
  unfolding zip_strict
  zipped [] [] tagged h = ground arith
  zipped [] (t ∷ ts) tagged h = ground arith
  zipped (e ∷ es) [] tagged h = ground arith
  zipped (e ∷ es) (t ∷ ts) tagged h =
      let (rest, made, whole) = ok-bind (zip_strict es ts) h in
      let same : (e, t) ∷ rest ≡ tagged = ground arith in
      ap (λ r. (e, t) ∷ r) (zipped es ts rest made) ∙ same

  -- Where the signals are grouped, the group of a type in a regime, or the empty list where there is none,
  -- is the signals of that type at the time of a candle with that regime, with their cluster tags and in
  -- order.
  pub grouped-signals_in :
      (by_bucket : Dict RegimeTag (Dict Text (Tagged F))) (regime : RegimeTag) (signal : Text)
      → grouped plan settings signals candles ≡ ok by_bucket
      → get_or signal [] (get_or regime [] by_bucket) ≡ signals_in regime signal
  unfolding grouped signals_in group lookup
  grouped-signals_in by_bucket regime signal h =
      let tags =
        compute_cluster_tags (map entry_of signals) settings.events.breakout_window
          plan.interval_ms in
      let (tagged, zip, made) = ok-bind (zip_strict signals tags) h in
      let times = index_times candles 0 [] in
      let regimes = compute_regime_tags settings candles in
      by_bucket_from-chosen times regimes tagged [] by_bucket regime signal made
      ∙ ap (chosen times regimes regime signal) (sym (zipped signals tags tagged zip))

  grouped-Distinct :
      (by_bucket : Dict RegimeTag (Dict Text (Tagged F)))
      → grouped plan settings signals candles ≡ ok by_bucket
      → Distinct by_bucket
  unfolding grouped
  grouped-Distinct by_bucket h =
      let tags =
        compute_cluster_tags (map entry_of signals) settings.events.breakout_window
          plan.interval_ms in
      let (tagged, zip, made) = ok-bind (zip_strict signals tags) h in
      by_bucket_from-Distinct (index_times candles 0 []) (compute_regime_tags settings candles)
        tagged [] by_bucket made tt

  abbrev AreChosen : RegimeTag → Dict Text (Tagged F) → Type ℓ
  AreChosen regime by_type =
      (signal : Text) (tagged : Tagged F)
      → lookup signal by_type ≡ some tagged
      → tagged ≡ signals_in regime signal

  -- So is every group that is there.
  pub grouped-chosen :
      (by_bucket : Dict RegimeTag (Dict Text (Tagged F)))
      → grouped plan settings signals candles ≡ ok by_bucket
      → All (λ entry. AreChosen entry.0 entry.1) by_bucket
  grouped-chosen by_bucket h =
      entries-All AreChosen by_bucket (grouped-Distinct by_bucket h)
        (λ regime by_type l signal tagged m.
          sym (group-lookup by_bucket regime by_type signal tagged l m)
          ∙ grouped-signals_in by_bucket regime signal h)
