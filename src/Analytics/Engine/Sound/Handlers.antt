-- ===== src/Analytics/Engine/Sound/Handlers.antt =====
-- Every handler of the engine keeps the invariant.
use orvixa.Prelude.{
  ℕ, ◌≤◌, ◌≡◌, refl, true, List, [], ◌∷◌, Option, none, some, arith, inl, inr, Bool-cases,
}
use orvixa.Prelude.Int.{pos}
use orvixa.Prelude.Eq.{ℕ_eq}
use orvixa.Prelude.Dict.{get_or}
use orvixa.Prelude.Result.{Result, ok, raised}
use orvixa.Prelude.Float.{Float, IsOrdered}
use orvixa.Feeds.Base.{Candle}
use orvixa.Persistence.SymbolIds.{resolve_symbol_id}
use orvixa.Symbols.Breadth.{BreadthSnapshot}
use orvixa.Analytics.Trend.{IndicatorSnapshot, TrendResult, compute_trend}
use orvixa.Analytics.Indicators.{new_indicators, indicators_update}
use orvixa.Analytics.Signals
use orvixa.Analytics.Signals.{SignalResult, SignalEngine}
use orvixa.Analytics.Events
use orvixa.Analytics.Events.{EventResult, EventEngine}
use orvixa.Analytics.Regime
use orvixa.Analytics.Regime.{RegimeResult}
use orvixa.Analytics.Regime.Health.{evaluate-range}
use orvixa.Analytics.Engine.{
  event_row, signal_row, EngineSettings, Stores, Engine, insert_signals, insert_events, and_then,
}
use orvixa.Analytics.Engine.Pipeline.{
  after_signals, emit_signals, after_events, emit_events, count_candle, fold_candle, process,
  resolved, handle_candle, memory_row, remember, refresh_with,
}
use orvixa.Analytics.Engine.Sound.{
  IsHealthy, IsSound, with_signal, with_event, with_memory, with_candle, if-IsSound,
}

module _ {ℓ} {F : Type ℓ} ⦃f : Float F⦄ (settings : EngineSettings F) where
  healthy_of :
      (laws : IsOrdered F) (threshold : F) (breadth : BreadthSnapshot F) (ups downs : F)
      (vol : Option F) (r : RegimeResult F)
      → Regime.evaluate threshold breadth ups downs vol ≡ ok r
      → (m : ℕ) × (r.health_score ≡ pos m) × (m ≤ 100)
  healthy_of laws threshold breadth ups downs vol r made =
      elim (evaluate-range laws threshold breadth ups downs vol) [
        | inl (num, there) ↦
            let (r', m, e, score, le) = there in
            let same : r' ≡ r = ground (arith, e, made) in (m, ground (arith, same, score), le)
        | inr (nan, e) ↦ absurd (ground (arith, e, made))
      ]

  module _ (stores : Stores F) where
    insert_signals-IsSound :
        (symbol_id ts : ℕ) (signals : List (SignalResult F)) (e : Engine F)
        → settings.enable_signals ≡ true
        → IsSound settings e
        → IsSound settings (insert_signals stores symbol_id ts signals e).1
    unfolding insert_signals
    insert_signals-IsSound symbol_id ts [] e on h = h
    insert_signals-IsSound symbol_id ts (r ∷ signals) e on h =
        elim (Bool-cases (stores.takes_signal (signal_row symbol_id ts r))) [
          | inl taken ↦ rw taken (
              insert_signals-IsSound symbol_id ts signals _ on
                (with_signal settings e (signal_row symbol_id ts r) on h))
          | inr refused ↦ rw refused h
        ]

    insert_events-IsSound :
        (symbol_id ts : ℕ) (events : List (EventResult F)) (e : Engine F)
        → IsSound settings e
        → IsSound settings (insert_events stores symbol_id ts events e).1
    unfolding insert_events
    insert_events-IsSound symbol_id ts [] e h = h
    insert_events-IsSound symbol_id ts (r ∷ events) e h =
        elim (Bool-cases (stores.takes_event (event_row symbol_id ts r))) [
          | inl taken ↦ rw taken (
              insert_events-IsSound symbol_id ts events _
                (with_event settings e (event_row symbol_id ts r) h))
          | inr refused ↦ rw refused h
        ]

    after_signals-IsSound :
        (symbol_id ts : ℕ) (out : Result (List (SignalResult F)) × SignalEngine) (e : Engine F)
        → settings.enable_signals ≡ true
        → IsSound settings e
        → IsSound settings (after_signals settings stores symbol_id ts out e).1
    unfolding after_signals
    after_signals-IsSound symbol_id ts (raised x, machines) e on h = h
    after_signals-IsSound symbol_id ts (ok signals, machines) e on h =
        insert_signals-IsSound symbol_id ts signals (record e { signal_engine = machines }) on h

    emit_signals-IsSound :
        (symbol_id ts : ℕ) (snapshot : IndicatorSnapshot F) (trend : Option (TrendResult F))
        (e : Engine F)
        → IsSound settings e
        → IsSound settings (emit_signals settings stores symbol_id ts snapshot trend e).1
    unfolding emit_signals
    emit_signals-IsSound symbol_id ts snapshot trend e h =
        if-IsSound settings settings.enable_signals _ _
          (λ on.
            after_signals-IsSound symbol_id ts
              (Signals.evaluate settings.signals symbol_id snapshot trend e.signal_engine) e on h)
          h

    after_events-IsSound :
        (symbol_id ts : ℕ) (out : Result (List (EventResult F)) × EventEngine F) (e : Engine F)
        → IsSound settings e
        → IsSound settings (after_events settings stores symbol_id ts out e).1
    unfolding after_events
    after_events-IsSound symbol_id ts (raised x, machines) e h = h
    after_events-IsSound symbol_id ts (ok events, machines) e h =
        insert_events-IsSound symbol_id ts events (record e { event_engine = machines }) h

    and_then-IsSound :
        (out : Result (Unit {0}) × Engine F) (next : Engine F → Result (Unit {0}) × Engine F)
        → IsSound settings out.1
        → ((e : Engine F) → IsSound settings e → IsSound settings (next e).1)
        → IsSound settings (and_then out next).1
    unfolding and_then
    and_then-IsSound (ok u, e) next h k = k e h
    and_then-IsSound (raised x, e) next h k = h

    fold_candle-IsSound :
        (symbol_id : ℕ) (candle : Candle F) (e : Engine F)
        → IsSound settings e
        → IsSound settings (fold_candle settings stores symbol_id candle e).2
    unfolding fold_candle
    fold_candle-IsSound symbol_id candle e h =
        let known = get_or symbol_id new_indicators e.indicators in
        let (snapshot, updated) = indicators_update settings.indicators known candle in
        with_candle settings e symbol_id updated (compute_trend snapshot) h

    process-IsSound :
        (symbol_id : ℕ) (candle : Candle F) (e : Engine F)
        → IsSound settings e
        → IsSound settings (process settings stores symbol_id candle e).1
    unfolding process count_candle emit_events
    process-IsSound symbol_id candle e h =
        let (snapshot, trend, folded) = fold_candle settings stores symbol_id candle e in
        let signalled = emit_signals settings stores symbol_id candle.ts snapshot trend folded in
        let emit = emit_events settings stores symbol_id candle.ts snapshot in
        and_then-IsSound (and_then signalled emit) (count_candle settings stores)
          (and_then-IsSound signalled emit
            (emit_signals-IsSound symbol_id candle.ts snapshot trend folded
              (fold_candle-IsSound symbol_id candle e h))
            (λ e' h'.
              after_events-IsSound symbol_id candle.ts
                (Events.evaluate settings.events symbol_id snapshot e'.event_engine) e' h'))
          (λ e' h'. h')

    resolved-IsSound :
        (candle : Candle F) (answer : Result (Option ℕ)) (e : Engine F)
        → IsSound settings e
        → IsSound settings (resolved settings stores candle answer e).1
    unfolding resolved
    resolved-IsSound candle (raised x) e h = h
    resolved-IsSound candle (ok none) e h = h
    resolved-IsSound candle (ok (some symbol_id)) e h = process-IsSound symbol_id candle e h

    pub handle_candle-IsSound :
        (candle : Candle F) (e : Engine F)
        → IsSound settings e
        → IsSound settings (handle_candle settings stores candle e).1
    unfolding handle_candle
    handle_candle-IsSound candle e h =
        let (answer, ids) = resolve_symbol_id stores.get_id candle.symbol e.symbol_ids in
        if-IsSound settings candle.closed _ _
          (λ closed. resolved-IsSound candle answer (record e { symbol_ids = ids }) h) h

    remember-IsSound :
        (now : ℕ) (out : Result (RegimeResult F)) (e : Engine F)
        → ((r : RegimeResult F)
            → out ≡ ok r
            → IsHealthy settings (memory_row settings stores now r))
        → IsSound settings e
        → IsSound settings (remember settings stores now out e).1
    unfolding remember
    remember-IsSound now (raised x) e fine h = h
    remember-IsSound now (ok r) e fine h =
        if-IsSound settings (stores.takes_memory (memory_row settings stores now r)) _ _
          (λ taken. with_memory settings e (memory_row settings stores now r) (fine r refl) h) h

    pub refresh_with-IsSound :
        (laws : IsOrdered F) (now : ℕ) (breadth : Option (BreadthSnapshot F))
        (trends : List (ℕ × TrendResult F)) (e : Engine F)
        → IsSound settings e
        → IsSound settings (refresh_with settings stores now breadth trends e).1
    unfolding refresh_with memory_row
    refresh_with-IsSound laws now none trends e h = h
    refresh_with-IsSound laws now (some breadth) [] e h = h
    refresh_with-IsSound laws now (some breadth) (t ∷ trends) e h =
        remember-IsSound now _ e (λ r made. healthy_of laws _ breadth _ _ _ r made) h
