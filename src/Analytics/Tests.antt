-- ===== src/Analytics/Tests.antt =====
-- The health score, a pressure signal and a breakout on concrete data.
use orvixa.Prelude.{ℕ, ◌≡◌, ◌≤◌, ◌⊎◌, refl, [], ◌∷◌, Option, none, some}
use orvixa.Prelude.Int.{pos}
use orvixa.Prelude.Eq.{ℕ_eq}
use orvixa.Prelude.Dict.{lookup, insert}
use orvixa.Prelude.Result.{ok, raised, value_error}
use orvixa.Prelude.Float.{max_of, min_of, ◌≼◌, fmin, fmax}
use orvixa.Prelude.Float.Fixed.{Fixed, fixed_float, runs}
use orvixa.Prelude.Float.Lawful.{Fixed-IsOrdered}
use orvixa.Symbols.Breadth.{BreadthSnapshot}
use orvixa.Analytics.Trend.{IndicatorSnapshot, TrendResult, up}
use orvixa.Analytics.Regime.{evaluate, vol_regime_of, RegimeResult, normal, health_raw}
use orvixa.Analytics.Regime.Health.{evaluate-range}
use orvixa.Analytics.Signals.{
  signal_of, SignalEngine, SignalResult, SignalSettings, buy, buying, neutral, pressure,
  evaluate_pressure, same_pressure, raw_confidence,
}
use orvixa.Analytics.Signals.Transitions.{Explains, evaluate_pressure-Explains}
use orvixa.Analytics.Events
use orvixa.Analytics.Events.{
  EventEngine, EventSettings, EventResult, breakout, same_trigger, severity,
}
use orvixa.Analytics.Events.Transitions.{moves_of, evaluate-moves}

abbrev breadth : BreadthSnapshot Fixed
breadth = record {
  total = 10;
  advancers = 6;
  decliners = 3;
  unchanged = 1;
  ad_ratio = pos 20_000;
  pct_above_trend = pos 600_000;
  new_highs = 2;
  new_lows = 0;
}

evaluate-range_example :
    ((health_raw breadth (pos 5_000) normal ≼ health_raw breadth (pos 5_000) normal)
      × ((r : RegimeResult Fixed) × (m : ℕ) × (evaluate
              (pos 30_000)
              breadth
              (pos 5_000)
              (pos 2_000)
              none
            ≡ ok r)
          × (r.health_score ≡ pos m)
          × (m ≤ 100)))
    ⊎ (¬ (health_raw breadth (pos 5_000) normal ≼ health_raw breadth (pos 5_000) normal)
        × (evaluate (pos 30_000) breadth (pos 5_000) (pos 2_000) none ≡ raised value_error))
unfolding vol_regime_of
evaluate-range_example =
    evaluate-range Fixed-IsOrdered (pos 30_000) breadth (pos 5_000) (pos 2_000) none

abbrev settings : SignalSettings Fixed
settings = record { signal_min_confidence = pos 60; high_volatility_pct = pos 30_000 }

abbrev rising : TrendResult Fixed
rising = record { direction = up; strength = pos 1_000_000; slope = pos 100; score = pos 1_000_000 }

abbrev idle : SignalEngine
idle = record { pressure_state = []; highvol_state = [] }

abbrev signalled : Option (SignalResult Fixed) × SignalEngine
signalled = (
  some (record {
    signal = buy;
    confidence = pos 72;
    score = pos 1_000_000;
    state_from = pressure neutral;
    state_to = pressure buying;
  }),
  record { pressure_state = (7, buying) ∷ []; highvol_state = [] },
)

evaluate_pressure_runs :
    evaluate_pressure settings 7 (some rising) (some (pos 600_000)) (some (pos 18_000)) idle
    ≡ ok signalled
unfolding evaluate_pressure same_pressure raw_confidence lookup insert fmin fmax runs signal_of
evaluate_pressure_runs = refl

evaluate_pressure-Explains_example : Explains settings 7 idle signalled
evaluate_pressure-Explains_example =
    evaluate_pressure-Explains settings 7 (some rising) (some (pos 600_000)) (some (pos 18_000))
      idle {out = signalled} evaluate_pressure_runs

-- The close is above the only recorded high; the other histories are empty.
abbrev before : EventEngine Fixed
before = record {
  highs = (7, pos 100_000 ∷ []) ∷ [];
  lows = (7, pos 90_000 ∷ []) ∷ [];
  closes = [];
  vol_history = [];
  breakout_state = [];
  pump_dump_state = [];
  vol_spike_state = [];
}

abbrev event_settings : EventSettings Fixed
event_settings = record {
  breakout_window = 1;
  pump_dump_window = 5;
  pump_dump_pct = pos 50_000;
  vol_spike_window = 5;
  vol_spike_multiplier = pos 20_000;
}

abbrev risen : IndicatorSnapshot Fixed
risen = record {
  close = pos 120_000;
  high = pos 120_000;
  low = pos 100_000;
  volume = pos 10_000;
  ema_fast = none;
  ema_slow = none;
  ema_slow_prev = none;
  rsi = none;
  atr = none;
  vol_realized = none;
  vol_rel = none;
}

abbrev breakout_event : EventResult Fixed
breakout_event = record {
  event = breakout;
  magnitude = pos 200_000;
  severity = 3;
  price = pos 120_000;
}

evaluate_events_run : (Events.evaluate event_settings 7 risen before).0 ≡ ok (breakout_event ∷ [])
unfolding Events.evaluate lookup insert same_trigger severity max_of min_of runs
evaluate_events_run = refl

evaluate-moves_example : 1 ≡ moves_of 7 before (Events.evaluate event_settings 7 risen before).1
evaluate-moves_example =
    evaluate-moves event_settings 7 risen before (breakout_event ∷ []) evaluate_events_run
