-- ===== src/Backtest/Returns/Stable.antt =====
-- Forward returns as a series grows.
use orvixa.Prelude.{
  ap, zero, ℕ, suc, ◌+◌, ◌*◌, ◌≡◌, refl, ◌∙◌, true, List, [], ◌∷◌, ◌++◌, none, some, drop, ltb,
  arith, inl, inr, Bool-cases, Option-cases,
}
use orvixa.Prelude.Eq.{ℕ_eq}
use orvixa.Prelude.Dict.{lookup}
use orvixa.Prelude.Sets.{member}
use orvixa.Prelude.Float.{Float}
use orvixa.Feeds.Base.{Candle}
use orvixa.Backtest.Returns.{first_at, forward_return, returns_from, forward_returns}
use orvixa.Backtest.Returns.Targets.{lookup-returns_into}

module _ {ℓ} {F : Type ℓ} ⦃f : Float F⦄ (later : List (Candle F)) where
  first_at-append :
      (candles : List (Candle F)) (t : ℕ) (target : Candle F)
      → first_at candles t ≡ some target
      → first_at (candles ++ later) t ≡ some target
  unfolding first_at
  first_at-append [] t target e = absurd (cc)
  first_at-append (c ∷ candles) t target e = elim (Bool-cases (ltb c.ts t)) [
    | inl early ↦ rw early (first_at-append candles t target (ground arith))
    | inr late ↦ rw late (ground arith)
  ]

  forward_return-append :
      (entry : Candle F) (from : List (Candle F)) (interval_ms h : ℕ) (r : F)
      → forward_return entry from interval_ms h ≡ some r
      → forward_return entry (from ++ later) interval_ms h ≡ some r
  unfolding forward_return
  forward_return-append entry from interval_ms h r e =
      elim (Option-cases (first_at from (entry.ts + h * interval_ms))) [
        | inl missing ↦ absurd (ground arith)
        | inr (target, found) ↦
            let again = first_at-append from (entry.ts + h * interval_ms) target found in
            rw (forward_return, again) (ground arith)
      ]

  drop-append :
      (n : ℕ) (xs : List (Candle F)) {y : Candle F} {ys : List (Candle F)}
      → drop n xs ≡ y ∷ ys
      → drop n (xs ++ later) ≡ y ∷ ys ++ later
  drop-append zero xs e = ap (λ l. l ++ later) e
  drop-append (suc n) [] e = absurd (cc)
  drop-append (suc n) (x ∷ xs) e = drop-append n xs e

  returns_from-append :
      (from whole : List (Candle F)) (horizons : List ℕ) (interval_ms h : ℕ) (r : F)
      → ((entry : Candle F) (rest : List (Candle F))
          → from ≡ entry ∷ rest
          → whole ≡ entry ∷ rest ++ later)
      → lookup h (returns_from from horizons interval_ms) ≡ some (some r)
      → lookup h (returns_from whole horizons interval_ms) ≡ some (some r)
  unfolding returns_from lookup
  returns_from-append [] whole horizons interval_ms h r g e =
      absurd (ground (arith, lookup-returns_into {F = F} (λ _. none) horizons [] h))
  returns_from-append (entry ∷ from) whole horizons interval_ms h r g e =
      let all = entry ∷ from in
      let here : forward_return entry all interval_ms h ≡ some r =
        ground (arith, lookup-returns_into (forward_return entry all interval_ms) horizons [] h) in
      let there = forward_return-append entry all interval_ms h r here in
      let known : member h horizons ≡ true =
        ground (arith, lookup-returns_into (forward_return entry all interval_ms) horizons [] h) in
      rw (g entry from refl) (
        lookup-returns_into (forward_return entry (all ++ later) interval_ms) horizons [] h
        ∙ rw known (ap some there))

  -- A forward return that is measured over the first candles of a series is the same over the whole
  -- series: later candles do not revise it.
  pub forward_returns_stable :
      (candles : List (Candle F)) (idx : ℕ) (horizons : List ℕ) (execution_lag interval_ms h : ℕ)
      (r : F)
      → lookup h (forward_returns candles idx horizons execution_lag interval_ms) ≡ some (some r)
      → lookup h (forward_returns (candles ++ later) idx horizons execution_lag interval_ms)
        ≡ some (some r)
  unfolding forward_returns
  forward_returns_stable candles idx horizons execution_lag interval_ms h r =
      returns_from-append (drop (idx + execution_lag) candles)
        (drop (idx + execution_lag) (candles ++ later)) horizons interval_ms h r
        (λ entry rest. drop-append (idx + execution_lag) candles)
