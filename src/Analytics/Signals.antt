-- ===== src/Analytics/Signals.antt =====
-- The signal state machines (src/orvixa/analytics/signals.py). The components of a signal, figures
-- rounded for display, are left out.
pub mod Transitions
use orvixa.Prelude.{
  ℕ, Bool, true, false, not, ◌&&◌, ◌||◌, List, [], ◌∷◌, ◌++◌, Option, none, some, if◌then◌else◌,
}
use orvixa.Prelude.Int.{ℤ, pos, ltb_ℤ}
use orvixa.Prelude.Eq.{ℕ_eq}
use orvixa.Prelude.Dict.{Dict, insert, get_or, lookup}
use orvixa.Prelude.Result.{Result, ok, raised, value_error, zero_division, or_raise, ◌>>=◌}
use orvixa.Prelude.Float.{Float, nought, of_ℕ, fmin, fmax}
use orvixa.Analytics.Trend.{IndicatorSnapshot, TrendResult, Direction, up, down, flat}

pub data SignalType : Type 0 where
  buy sell highvol : SignalType

-- The states of the two machines of a symbol.
pub data Pressure : Type 0 where
  neutral buying selling : Pressure

pub data Volatility : Type 0 where
  normal high : Volatility

pub data State : Type 0 where
  pressure : Pressure → State
  volatility : Volatility → State

pub record SignalResult {ℓ} (F : Type ℓ) : Type ℓ where
  pub signal : SignalType
  pub confidence : ℤ
  pub score : F
  pub state_from : State
  pub state_to : State

-- `_pressure_state` and `_highvol_state`
pub record SignalEngine : Type 0 where
  pub pressure_state : Dict ℕ Pressure
  pub highvol_state : Dict ℕ Volatility

pub record SignalSettings {ℓ} (F : Type ℓ) : Type ℓ where
  pub signal_min_confidence : ℤ
  pub high_volatility_pct : F

unfoldable pub same_pressure : Pressure → Pressure → Bool
same_pressure neutral neutral = true
same_pressure buying buying = true
same_pressure selling selling = true
same_pressure _ _ = false

-- The signal of a state to which a machine moves.
unfoldable pub signal_of : Pressure → SignalType
signal_of selling = sell
signal_of _ = buy

abbrev pub is_neutral : Pressure → Bool
is_neutral neutral = true
is_neutral _ = false

abbrev pub is_high : Volatility → Bool
is_high high = true
is_high normal = false

module _ {ℓ} {F : Type ℓ} ⦃f : Float F⦄ (settings : SignalSettings F) where
  -- `new_state`
  unfoldable pub pressure_of : Direction → F → Pressure
  pressure_of up rsi = if f.lt rsi (of_ℕ 70) then buying else neutral
  pressure_of down rsi = if f.lt (of_ℕ 30) rsi then selling else neutral
  pressure_of flat rsi = neutral

  unfoldable pub raw_confidence : F → F → F → F
  unfolding fmin fmax
  raw_confidence strength rsi vol_rel =
      let rsi_part = fmin (f.mul (f.abs (f.sub rsi (of_ℕ 50))) (of_ℕ 2)) (of_ℕ 100) in
      let vol_raw = f.mul (f.sub vol_rel (of_ℕ 1)) (of_ℕ 50) in
      let vol_part = fmin (fmax vol_raw nought) (of_ℕ 100) in
      f.add (f.add (f.mul (f.lit 6 10) strength) (f.mul (f.lit 2 10) rsi_part))
        (f.mul (f.lit 2 10) vol_part)

  unfoldable pub pressure_confidence : F → F → F → Result ℤ
  unfolding raw_confidence fmin fmax
  pressure_confidence strength rsi vol_rel =
      or_raise value_error
        (f.round (fmin (fmax (raw_confidence strength rsi vol_rel) nought) (of_ℕ 100)))

  -- The signal and the state for a confidence.
  unfoldable pub emit_pressure :
      ℕ → Pressure → Pressure → F → SignalEngine → ℤ → Option (SignalResult F) × SignalEngine
  unfolding signal_of
  emit_pressure symbol_id old new score e confidence =
      if ltb_ℤ confidence settings.signal_min_confidence then (none, e) else (
        some (record {
          signal = signal_of new;
          confidence = confidence;
          score = score;
          state_from = pressure old;
          state_to = pressure new;
        }),
        record e { pressure_state = insert symbol_id new e.pressure_state },
      )

  -- From `new_state` on.
  unfoldable pub pressure_step :
      ℕ
      → Pressure
      → TrendResult F
      → F
      → F
      → SignalEngine
      → Result (Option (SignalResult F) × SignalEngine)
  unfolding same_pressure pressure_confidence emit_pressure
  pressure_step symbol_id new trend rsi vol_rel e =
      let old = get_or symbol_id neutral e.pressure_state in
      if is_neutral new
      then ok (none, record e { pressure_state = insert symbol_id neutral e.pressure_state })
      else if same_pressure new old
      then ok (none, e)
      else pressure_confidence trend.strength rsi vol_rel >>= λ confidence.
          ok (emit_pressure symbol_id old new trend.score e confidence)

  unfoldable pub evaluate_pressure :
      ℕ
      → Option (TrendResult F)
      → Option F
      → Option F
      → SignalEngine
      → Result (Option (SignalResult F) × SignalEngine)
  unfolding pressure_of pressure_step
  evaluate_pressure symbol_id none rsi vol_rel e = ok (none, e)
  evaluate_pressure symbol_id (some trend) none vol_rel e = ok (none, e)
  evaluate_pressure symbol_id (some trend) (some rsi) none e = ok (none, e)
  evaluate_pressure symbol_id (some trend) (some rsi) (some vol_rel) e =
      pressure_step symbol_id (pressure_of trend.direction rsi) trend rsi vol_rel e

  unfoldable pub emit_highvol : ℕ → F → SignalEngine → ℤ → Option (SignalResult F) × SignalEngine
  emit_highvol symbol_id vol_realized e confidence =
      if ltb_ℤ confidence settings.signal_min_confidence then (none, e) else (
        some (record {
          signal = highvol;
          confidence = confidence;
          score = vol_realized;
          state_from = volatility (get_or symbol_id normal e.highvol_state);
          state_to = volatility high;
        }),
        record e { highvol_state = insert symbol_id high e.highvol_state },
      )

  -- The division raises where the threshold is 0.
  unfoldable pub highvol_confidence : F → Result ℤ
  unfolding fmin
  highvol_confidence vol_realized =
      if f.eq settings.high_volatility_pct nought
      then raised zero_division
      else or_raise value_error (
          f.round
            (fmin (f.mul (f.div vol_realized settings.high_volatility_pct) (of_ℕ 50)) (of_ℕ 100)))

  unfoldable pub evaluate_highvol :
      ℕ → Option F → SignalEngine → Result (Option (SignalResult F) × SignalEngine)
  unfolding emit_highvol highvol_confidence
  evaluate_highvol symbol_id none e = ok (none, e)
  evaluate_highvol symbol_id (some vol_realized) e =
      if not (f.le settings.high_volatility_pct vol_realized)
      then ok (none, record e { highvol_state = insert symbol_id normal e.highvol_state })
      else if is_high (get_or symbol_id normal e.highvol_state)
      then ok (none, e)
      else highvol_confidence vol_realized >>= λ confidence.
          ok (emit_highvol symbol_id vol_realized e confidence)

  abbrev signal_list : Option (SignalResult F) → List (SignalResult F)
  signal_list none = []
  signal_list (some r) = r ∷ []

  -- `SignalEngine.evaluate`. Where the second machine raises, the first has moved.
  unfoldable pub evaluate :
      ℕ
      → IndicatorSnapshot F
      → Option (TrendResult F)
      → SignalEngine
      → Result (List (SignalResult F)) × SignalEngine
  unfolding evaluate_pressure evaluate_highvol
  evaluate symbol_id snapshot trend e =
      elim (evaluate_pressure symbol_id trend snapshot.rsi snapshot.vol_rel e) [
        | raised x ↦ (raised x, e)
        | ok first ↦ elim (evaluate_highvol symbol_id snapshot.vol_realized first.1) [
          | raised x ↦ (raised x, first.1)
          | ok second ↦ (ok (signal_list first.0 ++ signal_list second.0), second.1)
        ]
      ]
