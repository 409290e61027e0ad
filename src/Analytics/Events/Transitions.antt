-- ===== src/Analytics/Events/Transitions.antt =====
-- Events and the moves of the machines.
use orvixa.Prelude.{
  ℕ, ◌+◌, ◌≡◌, refl, List, [], ◌∷◌, ◌++◌, Option, none, some, length, length-append, inl, inr,
  arith, if◌then◌else◌,
}
use orvixa.Prelude.Eq.{ℕ_eq}
use orvixa.Prelude.Dict.{Dict, lookup, insert, get_or, lookup-insert}
use orvixa.Prelude.Result.{ok, Result-cases}
use orvixa.Prelude.Float.{Float, of_ℕ, max_of, min_of}
use orvixa.Analytics.Trend.{IndicatorSnapshot}
use orvixa.Analytics.Events.{
  EventType, Triggered, calm, rising, falling, EventResult, EventSettings, EventEngine,
  same_trigger, Detected, trigger, breakout_between, check_breakout, pump_or_dump, check_pump_dump,
  spike_over, check_vol_spike, event_list, update_history, evaluate,
}

-- A machine that has moved to another state, one that is triggered, counts 1.
pub moves : Triggered → Triggered → ℕ
moves old calm = 0
moves old rising = if same_trigger rising old then 0 else 1
moves old falling = if same_trigger falling old then 0 else 1

moves_self : (t : Triggered) → moves t t ≡ 0
unfolding moves same_trigger
moves_self calm = refl
moves_self rising = refl
moves_self falling = refl

stored :
    (symbol_id : ℕ) (t : Triggered) (d : Dict ℕ Triggered)
    → get_or symbol_id calm (insert symbol_id t d) ≡ t
stored symbol_id t d = ground (arith, lookup-insert symbol_id symbol_id t d)

module _ {ℓ} {F : Type ℓ} ⦃f : Float F⦄ where
  abbrev Counts : Triggered → Detected F → Type 0
  Counts old (event, new) = length (event_list event) ≡ moves old new

  trigger-Counts :
      (event : EventType) (m : F) (s : ℕ) (price : F) (old : Triggered)
      → Counts old (trigger rising event m s price old)
        × Counts old (trigger falling event m s price old)
  unfolding trigger moves same_trigger
  trigger-Counts event m s price calm = (refl, refl)
  trigger-Counts event m s price rising = (refl, refl)
  trigger-Counts event m s price falling = (refl, refl)

  breakout-Counts :
      (high low close : F) (old : Triggered) → Counts old (breakout_between high low close old)
  unfolding breakout_between moves trigger same_trigger
  breakout-Counts high low close calm = ground arith
  breakout-Counts high low close rising = ground arith
  breakout-Counts high low close falling = ground arith

  check_breakout-Counts :
      (window : ℕ) (highs lows : Option (List F)) (close : F) (old : Triggered) (out : Detected F)
      → check_breakout window highs lows close old ≡ ok out
      → Counts old out
  unfolding check_breakout
  check_breakout-Counts window none lows close old out h = ground (arith, moves_self old)
  check_breakout-Counts window (some highs) none close old out h = ground (arith, moves_self old)
  check_breakout-Counts window (some []) (some lows) close old out h =
      ground (arith, moves_self old)
  check_breakout-Counts window (some (x ∷ highs)) (some []) close old out h =
      ground (arith, moves_self old)
  check_breakout-Counts window (some (x ∷ highs)) (some (l ∷ lows)) close old out h =
      ground (arith, moves_self old, breakout-Counts (max_of x highs) (min_of l lows) close old)

  pump_or_dump-Counts :
      (threshold pct close : F) (old : Triggered) (out : Detected F)
      → pump_or_dump threshold pct close old ≡ ok out
      → Counts old out
  unfolding pump_or_dump moves trigger same_trigger
  pump_or_dump-Counts threshold pct close calm out h = ground arith
  pump_or_dump-Counts threshold pct close rising out h = ground arith
  pump_or_dump-Counts threshold pct close falling out h = ground arith

  check_pump_dump-Counts :
      (window : ℕ) (threshold : F) (closes : Option (List F)) (close : F) (old : Triggered)
      (out : Detected F)
      → check_pump_dump window threshold closes close old ≡ ok out
      → Counts old out
  unfolding check_pump_dump
  check_pump_dump-Counts window threshold none close old out h = ground (arith, moves_self old)
  check_pump_dump-Counts window threshold (some []) close old out h = ground (arith, moves_self old)
  check_pump_dump-Counts window threshold (some (ref ∷ closes)) close old out h = ground (
    arith,
    moves_self old,
    pump_or_dump-Counts threshold (f.mul (f.div (f.sub close ref) ref) (of_ℕ 100)) close old out,
  )

  spike_over-Counts :
      (baseline multiplier vol close : F) (old : Triggered) (out : Detected F)
      → spike_over baseline multiplier vol close old ≡ ok out
      → Counts old out
  unfolding spike_over moves trigger same_trigger
  spike_over-Counts baseline multiplier vol close calm out h = ground arith
  spike_over-Counts baseline multiplier vol close rising out h = ground arith
  spike_over-Counts baseline multiplier vol close falling out h = ground arith

  check_vol_spike-Counts :
      (window : ℕ) (multiplier : F) (history : Option (List F)) (vol : Option F) (close : F)
      (old : Triggered) (out : Detected F)
      → check_vol_spike window multiplier history vol close old ≡ ok out
      → Counts old out
  unfolding check_vol_spike
  check_vol_spike-Counts window multiplier history none close old out h =
      ground (arith, moves_self old)
  check_vol_spike-Counts window multiplier none (some vol) close old out h =
      ground (arith, moves_self old)
  check_vol_spike-Counts window multiplier (some history) (some vol) close old out h = ground (
    arith,
    moves_self old,
    spike_over-Counts (f.div (f.sum history) (of_ℕ (length history))) multiplier vol close old out,
  )

  -- The moves of the machines of a symbol.
  pub moves_of : ℕ → EventEngine F → EventEngine F → ℕ
  moves_of symbol_id e e' =
      moves (get_or symbol_id calm e.breakout_state) (get_or symbol_id calm e'.breakout_state)
      + moves (get_or symbol_id calm e.pump_dump_state) (get_or symbol_id calm e'.pump_dump_state)
      + moves (get_or symbol_id calm e.vol_spike_state) (get_or symbol_id calm e'.vol_spike_state)

  -- Where `evaluate` returns, the number of its events is the number of the symbol's three machines
  -- that moved to another state, one that is triggered: a condition that goes on holding reports nothing.
  pub evaluate-moves :
      (settings : EventSettings F) (symbol_id : ℕ) (snapshot : IndicatorSnapshot F)
      (e : EventEngine F) (events : List (EventResult F))
      → (evaluate settings symbol_id snapshot e).0 ≡ ok events
      → length events ≡ moves_of symbol_id e (evaluate settings symbol_id snapshot e).1
  unfolding evaluate moves_of update_history
  evaluate-moves settings symbol_id snapshot e events h =
      let old₁ = get_or symbol_id calm e.breakout_state in
      let old₂ = get_or symbol_id calm e.pump_dump_state in
      let old₃ = get_or symbol_id calm e.vol_spike_state in
      let highs = lookup symbol_id e.highs in
      let lows = lookup symbol_id e.lows in
      let closes = lookup symbol_id e.closes in
      let history = lookup symbol_id e.vol_history in
      elim (Result-cases (check_breakout settings.breakout_window highs lows snapshot.close old₁)) [
        | inr (x, q) ↦ absurd (ground (arith, q))
        | inl (first, q₁) ↦
            elim (Result-cases (
              check_pump_dump settings.pump_dump_window settings.pump_dump_pct closes snapshot.close
                old₂)) [
                  | inr (x, q) ↦ absurd (ground (arith, q₁, q))
                  | inl (second, q₂) ↦
                      elim (Result-cases (
                        check_vol_spike settings.vol_spike_window settings.vol_spike_multiplier
                          history snapshot.vol_realized snapshot.close old₃)) [
                            | inr (x, q) ↦ absurd (ground (arith, q₁, q₂, q))
                            | inl (third, q₃) ↦
                                let c₁ =
                                  check_breakout-Counts settings.breakout_window highs lows
                                    snapshot.close old₁ first q₁ in
                                let c₂ =
                                  check_pump_dump-Counts settings.pump_dump_window
                                    settings.pump_dump_pct closes snapshot.close old₂ second q₂ in
                                let c₃ =
                                  check_vol_spike-Counts settings.vol_spike_window
                                    settings.vol_spike_multiplier history snapshot.vol_realized
                                    snapshot.close old₃ third q₃ in
                                ground (
                                  arith,
                                  q₁,
                                  q₂,
                                  q₃,
                                  c₁,
                                  c₂,
                                  c₃,
                                  stored symbol_id first.1 e.breakout_state,
                                  stored symbol_id second.1 e.pump_dump_state,
                                  stored symbol_id third.1 e.vol_spike_state,
                                  length-append (event_list first.0)
                                      (event_list second.0 ++ event_list third.0),
                                  length-append (event_list second.0) (event_list third.0),
                                )
                          ]
                ]
      ]
