-- ===== src/Analytics/Signals/Transitions.antt =====
-- Which signals a candle gives rise to.
use orvixa.Prelude.{
  subst, ℕ, ◌≡◌, refl, false, Option, none, some, ◌⊎◌, inl, inr, Bool-cases, arith,
}
use orvixa.Prelude.Int.{ℤ, ltb_ℤ}
use orvixa.Prelude.Eq.{ℕ_eq}
use orvixa.Prelude.Dict.{insert, get_or, lookup-insert}
use orvixa.Prelude.Result.{ok, Result-cases}
use orvixa.Prelude.Float.{Float}
use orvixa.Analytics.Trend.{TrendResult}
use orvixa.Analytics.Signals.{
  Pressure, neutral, pressure, SignalResult, SignalEngine, SignalSettings, same_pressure,
  is_neutral, pressure_of, pressure_confidence, emit_pressure, pressure_step, evaluate_pressure,
}

module _ {ℓ} {F : Type ℓ} ⦃f : Float F⦄ (settings : SignalSettings F) where
  abbrev pub pressure_at : ℕ → SignalEngine → Pressure
  pressure_at symbol_id e = get_or symbol_id neutral e.pressure_state

  -- A signal is a move of the symbol's machine, with enough confidence.
  pub record IsMove (symbol_id : ℕ) (e e' : SignalEngine) (r : SignalResult F) : Type 0 where
    pub moved_from : r.state_from ≡ pressure (pressure_at symbol_id e)
    pub moved_to : r.state_to ≡ pressure (pressure_at symbol_id e')
    pub moved : same_pressure (pressure_at symbol_id e') (pressure_at symbol_id e) ≡ false
    pub not_neutral : is_neutral (pressure_at symbol_id e') ≡ false
    pub confident : ltb_ℤ r.confidence settings.signal_min_confidence ≡ false

  -- Without a signal the machine stays, or it falls back to neutral.
  abbrev pub IsQuiet : ℕ → SignalEngine → SignalEngine → Type 0
  IsQuiet symbol_id e e' =
      (pressure_at symbol_id e' ≡ pressure_at symbol_id e) ⊎ (pressure_at symbol_id e' ≡ neutral)

  abbrev pub Explains : ℕ → SignalEngine → Option (SignalResult F) × SignalEngine → Type 0
  Explains symbol_id e (none, e') = IsQuiet symbol_id e e'
  Explains symbol_id e (some r, e') = IsMove symbol_id e e' r

  ok_inj : (a b : Option (SignalResult F) × SignalEngine) → ok a ≡ ok b → a ≡ b
  ok_inj a b h = cc

  get_or-insert :
      (symbol_id : ℕ) (new : Pressure) (e : SignalEngine)
      → get_or symbol_id neutral (insert symbol_id new e.pressure_state) ≡ new
  get_or-insert symbol_id new e =
      ground (arith, lookup-insert symbol_id symbol_id new e.pressure_state)

  emit_pressure-Explains :
      (symbol_id : ℕ) (new : Pressure) (score : F) (e : SignalEngine) (confidence : ℤ)
      → is_neutral new ≡ false
      → same_pressure new (pressure_at symbol_id e) ≡ false
      → Explains symbol_id e
          (emit_pressure settings symbol_id (pressure_at symbol_id e) new score e confidence)
  unfolding emit_pressure
  emit_pressure-Explains symbol_id new score e confidence n d =
      elim (Bool-cases (ltb_ℤ confidence settings.signal_min_confidence)) [
        | inl low ↦ rw low (inl refl)
        | inr enough ↦ rw enough (record {
          moved_from = refl;
          moved_to = ground (arith, get_or-insert symbol_id new e);
          moved = ground (arith, get_or-insert symbol_id new e);
          not_neutral = ground (arith, get_or-insert symbol_id new e);
          confident = enough;
        })
      ]

  pressure_step-Explains :
      (symbol_id : ℕ) (new : Pressure) (trend : TrendResult F) (rsi vol_rel : F) (e : SignalEngine)
      {out : Option (SignalResult F) × SignalEngine}
      → pressure_step settings symbol_id new trend rsi vol_rel e ≡ ok out
      → Explains symbol_id e out
  unfolding pressure_step
  pressure_step-Explains symbol_id new trend rsi vol_rel e {out} h =
      let old = pressure_at symbol_id e in
      elim (Bool-cases (is_neutral new)) [
        | inl n ↦
            let back : SignalEngine = record e {
              pressure_state = insert symbol_id neutral e.pressure_state;
            } in
            let same : (none, back) ≡ out = ok_inj (none, back) out (ground arith) in
            subst (Explains symbol_id e) same (inr (get_or-insert symbol_id neutral e))
        | inr n ↦ elim (Bool-cases (same_pressure new old)) [
          | inl stays ↦
              let same : (none, e) ≡ out = ok_inj (none, e) out (ground arith) in
              subst (Explains symbol_id e) same (inl refl)
          | inr moves ↦
              elim (Result-cases (pressure_confidence settings trend.strength rsi vol_rel)) [
                | inr (err, q) ↦ absurd (ground arith)
                | inl (confidence, q) ↦
                    let emitted =
                      emit_pressure settings symbol_id old new trend.score e confidence in
                    let same : emitted ≡ out = ok_inj emitted out (ground arith) in
                    subst (Explains symbol_id e) same
                      (emit_pressure-Explains symbol_id new trend.score e confidence n moves)
              ]
        ]
      ]

  -- A pressure signal is always a move of the symbol's state machine: its states are the machine's
  -- before and after, they differ, the new one is not neutral, and the confidence reaches the minimum.
  -- Without a signal the machine stays where it is or falls back to neutral.
  pub evaluate_pressure-Explains :
      (symbol_id : ℕ) (trend : Option (TrendResult F)) (rsi vol_rel : Option F) (e : SignalEngine)
      {out : Option (SignalResult F) × SignalEngine}
      → evaluate_pressure settings symbol_id trend rsi vol_rel e ≡ ok out
      → Explains symbol_id e out
  unfolding evaluate_pressure
  evaluate_pressure-Explains symbol_id none rsi vol_rel e {out} h =
      subst (Explains symbol_id e) (ok_inj (none, e) out h) (inl refl)
  evaluate_pressure-Explains symbol_id (some trend) none vol_rel e {out} h =
      subst (Explains symbol_id e) (ok_inj (none, e) out h) (inl refl)
  evaluate_pressure-Explains symbol_id (some trend) (some rsi) none e {out} h =
      subst (Explains symbol_id e) (ok_inj (none, e) out h) (inl refl)
  evaluate_pressure-Explains symbol_id (some trend) (some rsi) (some vol_rel) e {out} h =
      pressure_step-Explains symbol_id (pressure_of settings trend.direction rsi) trend rsi vol_rel
        e {out = out} h
