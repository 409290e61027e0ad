-- ===== src/Backtest/Clusters.antt =====
-- The cluster tags of a list of signals (src/orvixa/backtest/regime_validation.py:
-- `_compute_cluster_tags`).
pub mod Within
use orvixa.Prelude.{
  ℕ, ◌+◌, ◌*◌, Bool, true, false, not, ◌&&◌, ◌||◌, List, [], ◌∷◌, ◌++◌, ltb, leb, if◌then◌else◌,
}
use orvixa.Prelude.Eq.{Text, text_beq}

-- What is read of an entry: its type, and its time in epoch milliseconds.
pub record Entry : Type 0 where
  pub signal : Text
  pub ts : ℕ

pub data ClusterTag : Type 0 where
  isolated clustered : ClusterTag

-- The body of the inner loop: `0 < ts_ms - prior_ts_ms <= window_ms`, written without the subtraction.
unfoldable pub is_within : ℕ → Entry → Entry → Bool
is_within window_ms entry prior =
    if not (text_beq prior.signal entry.signal)
    then false
    else ltb prior.ts entry.ts && leb entry.ts (prior.ts + window_ms)

-- The inner loop over the entries before, which stops at the first that clusters.
unfoldable pub any_within : ℕ → Entry → List Entry → Bool
unfolding is_within
any_within window_ms entry [] = false
any_within window_ms entry (prior ∷ priors) =
    let rest = any_within window_ms entry priors in
    if is_within window_ms entry prior then true else rest

unfoldable pub tags_from : ℕ → List Entry → List Entry → List ClusterTag
unfolding any_within
tags_from window_ms priors [] = []
tags_from window_ms priors (entry ∷ signals) =
    (if any_within window_ms entry priors then clustered else isolated)
    ∷ tags_from window_ms (priors ++ entry ∷ []) signals

unfoldable pub compute_cluster_tags : List Entry → ℕ → ℕ → List ClusterTag
unfolding tags_from
compute_cluster_tags signals window_candles interval_ms =
    tags_from (window_candles * interval_ms) [] signals
