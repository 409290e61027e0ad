-- ===== src/Analytics/Events.antt =====
-- The market events (src/orvixa/analytics/events.py). The payload of an event, figures for display, is
-- left out.
pub mod Transitions
use orvixa.Prelude.{
  ℕ, Bool, true, false, not, ◌&&◌, ◌||◌, List, [], ◌∷◌, ◌++◌, Option, none, some, length,
  push_bounded, ltb, if◌then◌else◌,
}
use orvixa.Prelude.Eq.{ℕ_eq}
use orvixa.Prelude.Dict.{Dict, insert, get_or, lookup}
use orvixa.Prelude.Result.{Result, ok, raised, value_error, index_error, zero_division, ◌>>=◌}
use orvixa.Prelude.Float.{Float, nought, of_ℕ, max_of, min_of}
use orvixa.Analytics.Trend.{IndicatorSnapshot}

pub data EventType : Type 0 where
  breakout breakdown pump dump vol_spike : EventType

-- The states of the three machines: "none", "up" and "down", "none", "pump" and "dump", "none" and
-- "spike".
pub data Triggered : Type 0 where
  calm rising falling : Triggered

pub record EventResult {ℓ} (F : Type ℓ) : Type ℓ where
  pub event : EventType
  pub magnitude : F
  pub severity : ℕ
  pub price : F

pub record EventSettings {ℓ} (F : Type ℓ) : Type ℓ where
  pub breakout_window : ℕ
  pub pump_dump_window : ℕ
  pub pump_dump_pct : F
  pub vol_spike_window : ℕ
  pub vol_spike_multiplier : F

pub record EventEngine {ℓ} (F : Type ℓ) : Type ℓ where
  pub highs : Dict ℕ (List F)
  pub lows : Dict ℕ (List F)
  pub closes : Dict ℕ (List F)
  pub vol_history : Dict ℕ (List F)
  pub breakout_state : Dict ℕ Triggered
  pub pump_dump_state : Dict ℕ Triggered
  pub vol_spike_state : Dict ℕ Triggered

unfoldable pub same_trigger : Triggered → Triggered → Bool
same_trigger calm calm = true
same_trigger rising rising = true
same_trigger falling falling = true
same_trigger _ _ = false

-- What a detector makes of the state of its machine and of a condition: the event, if there is one, and
-- the state.
abbrev pub Detected {ℓ} : Type ℓ → Type ℓ
Detected F = Option (EventResult F) × Triggered

module _ {ℓ} {F : Type ℓ} ⦃f : Float F⦄ where
  -- `_severity`
  unfoldable pub severity : F → ℕ
  severity ratio = if f.le (of_ℕ 3) ratio then 3 else if f.le (f.lit 15 10) ratio then 2 else 1

  -- The branch of a condition that holds: an event, unless the machine is in its state already.
  unfoldable pub trigger : Triggered → EventType → F → ℕ → F → Triggered → Detected F
  unfolding same_trigger
  trigger new event magnitude severity price old = if same_trigger new old then (none, old) else (
    some (record { event = event; magnitude = magnitude; severity = severity; price = price }),
    new,
  )

  percent_of : F → F → F
  percent_of change level =
      if f.lt nought level then f.mul (f.div change level) (of_ℕ 100) else nought

  -- `_check_breakout` between a prior high and a prior low.
  unfoldable pub breakout_between : F → F → F → Triggered → Detected F
  unfolding trigger severity percent_of
  breakout_between prior_high prior_low close old =
      let above = percent_of (f.sub close prior_high) prior_high in
      let below = percent_of (f.sub prior_low close) prior_low in
      if f.lt prior_high close
      then trigger rising breakout above (severity (f.abs above)) close old
      else if f.lt close prior_low
      then trigger falling breakdown below (severity (f.abs below)) close old
      else (none, calm)

  -- `_check_breakout` on the symbol's histories. A `max` or `min` of none raises.
  unfoldable pub check_breakout :
      ℕ → Option (List F) → Option (List F) → F → Triggered → Result (Detected F)
  unfolding breakout_between max_of min_of
  check_breakout window none lows close old = ok (none, old)
  check_breakout window (some highs) none close old = ok (none, old)
  check_breakout window (some []) (some lows) close old =
      if ltb 0 window then ok (none, old) else raised value_error
  check_breakout window (some (h ∷ highs)) (some []) close old =
      if ltb (length (h ∷ highs)) window then ok (none, old) else raised value_error
  check_breakout window (some (h ∷ highs)) (some (l ∷ lows)) close old =
      if ltb (length (h ∷ highs)) window
      then ok (none, old)
      else ok (breakout_between (max_of h highs) (min_of l lows) close old)

  -- The two thresholds of `_check_pump_dump`; a ratio to a threshold of 0 raises.
  unfoldable pub pump_or_dump : F → F → F → Triggered → Result (Detected F)
  unfolding trigger severity same_trigger
  pump_or_dump threshold pct close old =
      if f.le threshold pct
      then (if same_trigger rising old
          then ok (none, old)
          else if f.eq threshold nought
          then raised zero_division
          else ok (trigger rising pump pct (severity (f.div pct threshold)) close old))
      else if f.le pct (f.neg threshold)
      then (if same_trigger falling old
          then ok (none, old)
          else if f.eq threshold nought
          then raised zero_division
          else ok (trigger falling dump pct (severity (f.div (f.abs pct) threshold)) close old))
      else ok (none, calm)

  -- `_check_pump_dump` on the symbol's closes, the oldest of which is the reference. `closes[0]` of
  -- none raises.
  unfoldable pub check_pump_dump : ℕ → F → Option (List F) → F → Triggered → Result (Detected F)
  unfolding pump_or_dump
  check_pump_dump window threshold none close old = ok (none, old)
  check_pump_dump window threshold (some []) close old =
      if ltb 0 window then ok (none, old) else raised index_error
  check_pump_dump window threshold (some (ref ∷ closes)) close old =
      if ltb (length (ref ∷ closes)) window
      then ok (none, old)
      else if f.le ref nought
      then ok (none, old)
      else pump_or_dump threshold (f.mul (f.div (f.sub close ref) ref) (of_ℕ 100)) close old

  -- `_check_vol_spike` against a baseline.
  unfoldable pub spike_over : F → F → F → F → Triggered → Result (Detected F)
  unfolding trigger severity same_trigger
  spike_over baseline multiplier vol_realized close old =
      let level = f.mul baseline multiplier in
      if f.le level vol_realized
      then (if same_trigger rising old
          then ok (none, old)
          else if f.eq level nought
          then raised zero_division
          else ok (
              trigger rising vol_spike vol_realized (severity (f.div vol_realized level)) close
                old))
      else ok (none, calm)

  -- `_check_vol_spike` on the symbol's history; the mean of none raises.
  unfoldable pub check_vol_spike :
      ℕ → F → Option (List F) → Option F → F → Triggered → Result (Detected F)
  unfolding spike_over
  check_vol_spike window multiplier history none close old = ok (none, old)
  check_vol_spike window multiplier none (some vol_realized) close old = ok (none, old)
  check_vol_spike window multiplier (some history) (some vol_realized) close old =
      let baseline = f.div (f.sum history) (of_ℕ (length history)) in
      if ltb (length history) window
      then ok (none, old)
      else if ltb 0 (length history)
      then (if f.le baseline nought
          then ok (none, old)
          else spike_over baseline multiplier vol_realized close old)
      else raised zero_division

  abbrev event_list : Option (EventResult F) → List (EventResult F)
  event_list none = []
  event_list (some event) = event ∷ []

  -- `setdefault(symbol_id, deque(maxlen=window)).append(x)`
  unfoldable pub record_in : ℕ → ℕ → F → Dict ℕ (List F) → Dict ℕ (List F)
  record_in window symbol_id x history =
      insert symbol_id (push_bounded window (get_or symbol_id [] history) x) history

  record_vol : ℕ → ℕ → Option F → Dict ℕ (List F) → Dict ℕ (List F)
  unfolding record_in
  record_vol window symbol_id none history = history
  record_vol window symbol_id (some x) history = record_in window symbol_id x history

  unfoldable pub update_history :
      EventSettings F → ℕ → IndicatorSnapshot F → EventEngine F → EventEngine F
  unfolding record_in record_vol
  update_history settings symbol_id snapshot e = record e {
    highs = record_in settings.breakout_window symbol_id snapshot.high e.highs;
    lows = record_in settings.breakout_window symbol_id snapshot.low e.lows;
    closes = record_in settings.pump_dump_window symbol_id snapshot.close e.closes;
    vol_history =
        record_vol settings.vol_spike_window symbol_id snapshot.vol_realized e.vol_history;
  }

  -- `EventEngine.evaluate`. A state that a detector leaves alone is stored as it was. A detector that
  -- raises ends the call: the states stored before it stay, and the histories are not advanced.
  unfoldable pub evaluate :
      EventSettings F
      → ℕ
      → IndicatorSnapshot F
      → EventEngine F
      → Result (List (EventResult F)) × EventEngine F
  unfolding check_breakout check_pump_dump check_vol_spike update_history
  evaluate settings symbol_id snapshot e =
      elim (check_breakout settings.breakout_window (lookup symbol_id e.highs)
        (lookup symbol_id e.lows) snapshot.close (get_or symbol_id calm e.breakout_state)) [
          | raised x ↦ (raised x, e)
          | ok first ↦
              let e₁ : EventEngine F = record e {
                breakout_state = insert symbol_id first.1 e.breakout_state;
              } in
              elim (check_pump_dump settings.pump_dump_window settings.pump_dump_pct
                (lookup symbol_id e₁.closes) snapshot.close
                (get_or symbol_id calm e₁.pump_dump_state)) [
                  | raised x ↦ (raised x, e₁)
                  | ok second ↦
                      let e₂ : EventEngine F = record e₁ {
                        pump_dump_state = insert symbol_id second.1 e₁.pump_dump_state;
                      } in
                      elim (check_vol_spike settings.vol_spike_window settings.vol_spike_multiplier
                        (lookup symbol_id e₂.vol_history) snapshot.vol_realized snapshot.close
                        (get_or symbol_id calm e₂.vol_spike_state)) [
                          | raised x ↦ (raised x, e₂)
                          | ok third ↦
                              let e₃ : EventEngine F = record e₂ {
                                vol_spike_state = insert symbol_id third.1 e₂.vol_spike_state;
                              } in
                              (
                                ok (
                                    event_list first.0
                                    ++ event_list second.0
                                    ++ event_list third.0),
                                update_history settings symbol_id snapshot e₃,
                              )
                        ]
                ]
        ]
