-- ===== src/Feeds/Binance/Sessions/Emitted.antt =====
-- A sequence of sessions: what the callbacks get, and the counters.
use orvixa.Prelude.{
  append-nil, Bool-cases, ltb, ◌||◌, inl, inr, ap, ◌∙◌, sym, ℕ, ◌+◌, ◌-◌, ◌≡◌, refl, Bool, true,
  false, List, [], ◌∷◌, ◌++◌, map, append_assoc, length, count_if, ◌==◌, concat, if◌then◌else◌,
  arith,
}
use orvixa.Prelude.Eq.{Text}
use orvixa.Prelude.Result.{Result, ok, raised, Result-cases}
use orvixa.Prelude.Float.{Float}
use orvixa.Feeds.Base.{Candle}
use orvixa.Feeds.Normalize.{ToInt, ToBool}
use orvixa.Feeds.Binance.Sessions.{
  Emission, candle, Connection, Network, Message, handle_message, handle_messages, gap_fill,
  mark_session, connected, connect_once,
}

-- A feed before its first session.
abbrev pub fresh {ℓ} : {F : Type ℓ} → Connection F
fresh = record {
  connect_count = 0;
  resubscribe_count = 0;
  gapfill_count = 0;
  had_session = false;
  emitted = [];
}

module _ {ℓ} {F : Type ℓ} ⦃f : Float F⦄ (to_int : ToInt F) (to_bool : ToBool F) (backfill_limit : ℕ)
    (symbols : List Text) where
  -- The sessions in turn, whatever ends each of them.
  pub run_sessions : List (Network F) → Connection F → Connection F
  run_sessions [] c = c
  run_sessions (n ∷ sessions) c =
      run_sessions sessions (connect_once to_int to_bool backfill_limit symbols n c).1

  pub connects : Network F → Bool
  connects n = elim n.connector [ raised x ↦ false | ok _ ↦ true ]

  -- What the backfiller gives, where there is something to ask for.
  pub filled : List Text → Result (List (Candle F)) → List (Emission F)
  filled [] backfilled = []
  filled (s ∷ rest) (raised x) = []
  filled (s ∷ rest) (ok candles) = if backfill_limit == 0 then [] else map candle candles

  -- The messages before the first one that raises give this.
  pub delivered : List (Message F) → List (Emission F)
  delivered [] = []
  delivered (m ∷ messages) =
      let later = delivered messages in
      elim (handle_message to_int to_bool m) [ raised x ↦ [] | ok out ↦ out ++ later ]

  pub emissions_of : Network F → List (Emission F)
  emissions_of n = elim n.connector [
    | raised x ↦ []
    | ok _ ↦ filled symbols n.backfilled ++ delivered n.messages
  ]

  -- The number of sockets that were opened, as the feed counts them.
  pub opened : Connection F → ℕ
  opened c = if c.had_session then c.resubscribe_count + 1 else c.resubscribe_count

  delivered-messages :
      (messages : List (Message F)) (closing : Result (Unit {0}))
      → (handle_messages to_int to_bool messages closing).1 ≡ delivered messages
  unfolding handle_messages delivered
  delivered-messages [] closing = refl
  delivered-messages (m ∷ messages) closing = ground (arith, delivered-messages messages closing)

  -- What one step makes of the feed: the emissions that it adds, and the sockets and attempts.
  record Adds (out : List (Emission F)) (sockets attempts : ℕ) (c after : Connection F)
      : Type ℓ where
    emits : after.emitted ≡ c.emitted ++ out
    opens : opened after ≡ opened c + sockets
    counts : after.connect_count ≡ c.connect_count + attempts
    marks : after.had_session ≡ (c.had_session || ltb 0 sockets)

  nothing : {c : Connection F} → Adds [] 0 0 c c
  nothing {c} = record {
    emits = sym (append-nil c.emitted);
    opens = omega arith;
    counts = omega arith;
    marks = ground arith;
  }

  gap_fill-Adds :
      (rest : List Text) (backfilled : Result (List (Candle F))) (c : Connection F)
      → Adds
          (filled rest backfilled)
          0
          0
          c
          (gap_fill to_int to_bool backfill_limit rest backfilled c)
  unfolding gap_fill filled opened
  gap_fill-Adds [] backfilled c = nothing
  gap_fill-Adds (s ∷ rest) (raised x) c = nothing
  gap_fill-Adds (s ∷ rest) (ok candles) c = elim (Bool-cases (backfill_limit == 0)) [
    | inl off ↦ rw (gap_fill, off) nothing
    | inr on ↦
        rw (gap_fill, on)
          (record {
            emits = refl;
            opens = ground arith;
            counts = omega arith;
            marks = ground arith;
          })
  ]

  connected-Adds :
      (n : Network F) (c : Connection F)
      → Adds
          (filled symbols n.backfilled ++ delivered n.messages)
          1
          1
          c
          (connected to_int to_bool backfill_limit symbols n
            (record c { connect_count = c.connect_count + 1 })).1
  unfolding connected mark_session opened
  connected-Adds n c =
      let counted : Connection F = record c { connect_count = c.connect_count + 1 } in
      let h = gap_fill-Adds symbols n.backfilled counted in
      record {
        emits =
            ap (λ out. out ++ (handle_messages to_int to_bool n.messages n.closing).1) h.emits
            ∙ ap (λ out. (c.emitted ++ filled symbols n.backfilled) ++ out)
                (delivered-messages n.messages n.closing)
            ∙ append_assoc c.emitted (filled symbols n.backfilled) (delivered n.messages);
        opens = ground (arith, h.opens, h.marks);
        counts = h.counts ∙ omega arith;
        marks = ground (arith, h.marks);
      }

  connect_once-Adds :
      (n : Network F) (c : Connection F)
      → Adds
          (emissions_of n)
          (if connects n then 1 else 0)
          1
          c
          (connect_once to_int to_bool backfill_limit symbols n c).1
  unfolding connect_once emissions_of connects opened
  connect_once-Adds n c = elim (Result-cases n.connector) [
    | inr (x, q) ↦
        rw (connect_once, emissions_of, connects, q)
          (record {
            emits = sym (append-nil c.emitted);
            opens = ground arith;
            counts = refl;
            marks = ground arith;
          })
    | inl (u, q) ↦ rw (connect_once, emissions_of, connects, q) (connected-Adds n c)
  ]

  run_sessions-Adds :
      (sessions : List (Network F)) (c : Connection F)
      → Adds
          (concat (map emissions_of sessions))
          (count_if connects sessions)
          (length sessions)
          c
          (run_sessions sessions c)
  unfolding run_sessions
  run_sessions-Adds [] c = nothing
  run_sessions-Adds (n ∷ sessions) c =
      let next = (connect_once to_int to_bool backfill_limit symbols n c).1 in
      let h = connect_once-Adds n c in
      let k = run_sessions-Adds sessions next in
      record {
        emits =
            k.emits
            ∙ ap (λ out. out ++ concat (map emissions_of sessions)) h.emits
            ∙ append_assoc c.emitted (emissions_of n) (concat (map emissions_of sessions));
        opens = omega (arith, k.opens, h.opens);
        counts = omega (arith, k.counts, h.counts);
        marks = ground (arith, k.marks, h.marks);
      }

  -- After any sequence of sessions of a new feed whose pairs stay the same, however each ends: what was handed to the callbacks is,
  -- session by session for those whose connector returned, the candles of the gap fill and then what the
  -- messages before the first one that raises give, in order; the connection counter is the number of
  -- sessions; and the counter of reconnects is one less than the number of sockets that were opened, or 0.
  pub run_sessions_lem :
      (sessions : List (Network F))
      → ((run_sessions sessions fresh).emitted ≡ concat (map emissions_of sessions))
        × ((run_sessions sessions fresh).connect_count ≡ length sessions)
        × ((run_sessions sessions fresh).resubscribe_count ≡ count_if connects sessions - 1)
  unfolding opened
  run_sessions_lem sessions =
      let h = run_sessions-Adds sessions fresh in
      (h.emits, h.counts ∙ omega arith, ground (arith, h.opens, h.marks))
