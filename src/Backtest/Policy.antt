-- ===== src/Backtest/Policy.antt =====
-- The validity label of a regime bucket (src/orvixa/backtest/regime_validation.py: `_classify_validity`)
-- and the policy decision on it (src/orvixa/backtest/policy_validation.py).
pub mod Decided
pub mod Tables
use orvixa.Prelude.{
  ℕ, ◌≡◌, Bool, true, false, not, ◌&&◌, ◌||◌, List, [], ◌∷◌, Option, none, some, if◌then◌else◌,
}
use orvixa.Prelude.Eq.{Text, text_eq, ℕ_eq}
use orvixa.Prelude.Dict.{Dict, lookup}
use orvixa.Prelude.Result.{Result, ok, raised, Error, key_error, type_error, ◌>>=◌, or_raise}
use orvixa.Prelude.Float.{Float, nought, of_ℕ}

-- The labels; `other` is any further text.
pub data Validity : Type 0 where
  insufficient_data diagnostic_only regime_conditional_candidate other : Validity

pub data Decision : Type 0 where
  allow block reduce : Decision

pub data PolicyReason : Type 0 where
  reason_insufficient_data reason_edge_ci_spans_zero reason_clustered : PolicyReason
  reason_agrees_with_global reason_diverges_from_global reason_no_global_reference : PolicyReason

-- `_sign`
pub data Sign : Type 0 where
  positive negative no_sign : Sign

unfoldable pub same_sign : Sign → Sign → Bool
same_sign positive positive = true
same_sign negative negative = true
same_sign no_sign no_sign = true
same_sign _ _ = false

abbrev pub is_no_sign : Sign → Bool
is_no_sign no_sign = true
is_no_sign _ = false

module _ {ℓ} {F : Type ℓ} ⦃f : Float F⦄ where
  unfoldable pub sign : F → Sign
  sign value =
      if f.lt nought value then positive else if f.lt value nought then negative else no_sign

  -- `low <= 0.0 <= high`
  abbrev pub spans_zero : F → F → Bool
  spans_zero low high = f.le low nought && f.le nought high

  -- `clustered_fraction > _CLUSTER_DOMINANCE_THRESHOLD`
  abbrev pub is_clustered : F → Bool
  is_clustered clustered_fraction = f.lt (f.lit 5 10) clustered_fraction

  unfoldable pub classify_validity : Option F → Option F → Option F → F → Validity
  classify_validity none edge_ci_low edge_ci_high clustered_fraction = insufficient_data
  classify_validity (some neff) none edge_ci_high clustered_fraction = insufficient_data
  classify_validity (some neff) (some low) none clustered_fraction = insufficient_data
  classify_validity (some neff) (some low) (some high) clustered_fraction =
      if f.lt neff (of_ℕ 5)
      then insufficient_data
      else if spans_zero low high
      then diagnostic_only
      else if is_clustered clustered_fraction
      then diagnostic_only
      else regime_conditional_candidate

-- A cell of `regime_metrics`: figures by horizon.
pub record RegimeCell {ℓ} (F : Type ℓ) : Type ℓ where
  pub classification : Dict ℕ Validity
  pub edge : Dict ℕ (Option F)
  pub edge_ci_low : Dict ℕ (Option F)
  pub edge_ci_high : Dict ℕ (Option F)
  pub clustered_fraction : F
  pub sample_size : ℕ
  pub neff : Dict ℕ (Option F)

pub record PolicyDecision {ℓ} (F : Type ℓ) : Type ℓ where
  pub decision : Decision
  pub reason : PolicyReason
  pub regime_classification : Validity
  pub regime_edge : Option F
  pub global_edge : Option F
  pub sample_size : ℕ
  pub neff : Option F

module _ {ℓ} {F : Type ℓ} ⦃f : Float F⦄ where
  -- `ci_spans_zero`
  unfoldable pub ci_spans_zero : Option F → Option F → Bool
  ci_spans_zero none high = true
  ci_spans_zero (some low) none = true
  ci_spans_zero (some low) (some high) = spans_zero low high

  unfoldable pub decide_diagnostic : Option F → Option F → F → Decision × PolicyReason
  unfolding ci_spans_zero
  decide_diagnostic low high clustered_fraction =
      if ci_spans_zero low high
      then (reduce, reason_edge_ci_spans_zero)
      else if is_clustered clustered_fraction
      then (reduce, reason_clustered)
      else (reduce, reason_edge_ci_spans_zero)

  -- The comparison of the signs, which raises on an edge that is None.
  unfoldable pub decide_candidate : Option F → Option F → Result (Decision × PolicyReason)
  unfolding same_sign sign
  decide_candidate regime_edge none = ok (reduce, reason_no_global_reference)
  decide_candidate none (some global) = raised type_error
  decide_candidate (some regime) (some global) = ok (
      if same_sign (sign regime) (sign global) && not (is_no_sign (sign regime))
      then (allow, reason_agrees_with_global)
      else (reduce, reason_diverges_from_global))

  -- The branches on the label.
  unfoldable pub decide_label :
      Validity → RegimeCell F → Option F → Option F → ℕ → Result (Decision × PolicyReason)
  unfolding decide_diagnostic decide_candidate
  decide_label insufficient_data cell regime_edge global_edge horizon =
      ok (block, reason_insufficient_data)
  decide_label diagnostic_only cell regime_edge global_edge horizon = do
    low ← or_raise key_error (lookup horizon cell.edge_ci_low)
    high ← or_raise key_error (lookup horizon cell.edge_ci_high)
    ok (decide_diagnostic low high cell.clustered_fraction)
  decide_label regime_conditional_candidate cell regime_edge global_edge horizon =
      decide_candidate regime_edge global_edge
  decide_label other cell regime_edge global_edge horizon = ok (block, reason_insufficient_data)

  -- `_decide`
  unfoldable pub decide : RegimeCell F → Option F → ℕ → Result (PolicyDecision F)
  unfolding decide_label
  decide cell global_edge horizon = do
    classification ← or_raise key_error (lookup horizon cell.classification)
    regime_edge ← or_raise key_error (lookup horizon cell.edge)
    decided ← decide_label classification cell regime_edge global_edge horizon
    neff ← or_raise key_error (lookup horizon cell.neff)
    ok (record {
      decision = decided.0;
      reason = decided.1;
      regime_classification = classification;
      regime_edge = regime_edge;
      global_edge = global_edge;
      sample_size = cell.sample_size;
      neff = neff;
    })

-- The tables by symbol, bucket and signal type.
-- The key of a bucket, as "trend=up,vol=low".
abbrev pub Bucket : Type 0
Bucket = Text

abbrev pub CellsByType {ℓ} : Type ℓ → Type ℓ
CellsByType F = Dict Text (RegimeCell F)

-- A loop that fills a dict key by key. The keys of a dict are distinct, so each stands once.
unfoldable pub fill {κ ι ο} :
    {K : Type κ} {V : Type ι} {W : Type ο} → (K → V → Result W) → Dict K V → Result (Dict K W)
fill g [] = ok []
fill g ((k, v) ∷ d) = do w ← g k v; rest ← fill g d; ok ((k, w) ∷ rest)

module _ {ℓ} {F : Type ℓ} ⦃f : Float F⦄ where
  -- `symbol_edges.get(sig_type, {}).get(decision_horizon)`
  unfoldable pub global_edge_of : Dict Text (Dict ℕ (Option F)) → Text → ℕ → Option F
  unfolding lookup
  global_edge_of edges signal horizon = elim (lookup signal edges) [
    | none ↦ none
    | some by_horizon ↦ elim (lookup horizon by_horizon) [ none ↦ none | some edge ↦ edge ]
  ]

  -- `compute_policy_decisions`, for `result["metrics"].get("edge", {})` and `result["regime_metrics"]`.
  unfoldable pub compute_policy_decisions :
      Dict Text (Dict ℕ (Option F))
      → Dict Text (Dict Bucket (CellsByType F))
      → ℕ
      → Result (Dict Text (Dict Bucket (Dict Text (PolicyDecision F))))
  unfolding fill global_edge_of decide
  compute_policy_decisions edges regime_metrics horizon =
      fill
        (λ _ buckets.
          fill
            (λ _ cells.
              fill (λ signal cell. decide cell (global_edge_of edges signal horizon) horizon) cells)
            buckets)
        regime_metrics
