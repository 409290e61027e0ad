-- ===== src/Backtest/Returns.antt =====
-- Forward returns (src/orvixa/backtest/signal_validation.py: `_forward_returns`, `_baseline_returns`,
-- `_interval_to_ms`, `_percentile`).
pub mod Targets
pub mod Stable
use orvixa.Prelude.{
  zero, ℕ, suc, ◌+◌, ◌-◌, ◌*◌, ◌/◌, ◌%◌, min, ◌≡◌, Bool, true, false, not, ◌&&◌, ◌||◌, ◌==◌, List,
  [], ◌∷◌, map, ◌++◌, Option, none, some, length, get_elem?, drop, ltb, leb, if◌then◌else◌,
}
use orvixa.Prelude.Eq.{Text, text_eq, ℕ_eq}
use orvixa.Prelude.Dict.{Dict, lookup, insert, get_or}
use orvixa.Prelude.Float.{Float, nought}
use orvixa.Feeds.Base.{Candle}

module _ {ℓ} {F : Type ℓ} ⦃f : Float F⦄ where
  -- The `while` loop over the candles from the entry on: the candle at which it stops.
  unfoldable pub first_at : List (Candle F) → ℕ → Option (Candle F)
  first_at [] target_time = none
  first_at (c ∷ candles) target_time =
      let rest = first_at candles target_time in if ltb c.ts target_time then rest else some c

  unfoldable pub forward_return : Candle F → List (Candle F) → ℕ → ℕ → Option F
  unfolding first_at
  forward_return entry from interval_ms h = elim (first_at from (entry.ts + h * interval_ms)) [
    | none ↦ none
    | some target ↦
        if f.eq entry.close nought
        then none
        else some (f.sub (f.div target.close entry.close) (f.lit 1 1))
  ]

  -- `out[h] = ...` for each horizon.
  unfoldable pub returns_into : (ℕ → Option F) → List ℕ → Dict ℕ (Option F) → Dict ℕ (Option F)
  returns_into value [] out = out
  returns_into value (h ∷ horizons) out = returns_into value horizons (insert h (value h) out)

  -- From the list of candles that starts with the entry.
  unfoldable pub returns_from : List (Candle F) → List ℕ → ℕ → Dict ℕ (Option F)
  unfolding returns_into forward_return
  returns_from [] horizons interval_ms = returns_into (λ _. none) horizons []
  returns_from (entry ∷ from) horizons interval_ms =
      returns_into (forward_return entry (entry ∷ from) interval_ms) horizons []

  unfoldable pub forward_returns : List (Candle F) → ℕ → List ℕ → ℕ → ℕ → Dict ℕ (Option F)
  unfolding returns_from
  forward_returns candles idx horizons execution_lag interval_ms =
      returns_from (drop (idx + execution_lag) candles) horizons interval_ms

  -- `out[h].append(value)` for the values of an index.
  unfoldable pub pool_returns : Dict ℕ (Option F) → Dict ℕ (List F) → Dict ℕ (List F)
  pool_returns [] out = out
  pool_returns ((h, none) ∷ fwd) out = pool_returns fwd out
  pool_returns ((h, some value) ∷ fwd) out =
      pool_returns fwd (insert h (get_or h [] out ++ value ∷ []) out)

  -- The indices from `idx` on, as many as `count`.
  unfoldable pub baseline_from :
      List (Candle F) → List ℕ → ℕ → ℕ → ℕ → ℕ → Dict ℕ (List F) → Dict ℕ (List F)
  unfolding forward_returns pool_returns
  baseline_from candles horizons execution_lag interval_ms idx zero out = out
  baseline_from candles horizons execution_lag interval_ms idx (suc count) out =
      baseline_from candles horizons execution_lag interval_ms (idx + 1) count
        (pool_returns (forward_returns candles idx horizons execution_lag interval_ms) out)

  unfoldable pub empty_pools : List ℕ → Dict ℕ (List F) → Dict ℕ (List F)
  empty_pools [] out = out
  empty_pools (h ∷ horizons) out = empty_pools horizons (insert h [] out)

  unfoldable pub baseline_returns : List (Candle F) → List ℕ → ℕ → ℕ → Dict ℕ (List F)
  unfolding baseline_from empty_pools
  baseline_returns candles horizons execution_lag interval_ms =
      baseline_from candles horizons execution_lag interval_ms 0 (length candles)
        (empty_pools horizons [])
