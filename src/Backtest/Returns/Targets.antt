-- ===== src/Backtest/Returns/Targets.antt =====
-- The candle that a forward return is taken from.
use orvixa.Prelude.{
  Option-cases, ==_iff, zero, ℕ, suc, ◌+◌, ◌*◌, ◌≡◌, ◌≤◌, ◌<◌, refl, ◌∙◌, sym, true, false, List,
  [], ◌∷◌, Option, none, some, get_elem?, drop, ltb, if◌then◌else◌, arith, inl, inr, Bool-cases,
}
use orvixa.Prelude.Eq.{ℕ_eq}
use orvixa.Prelude.Dict.{contains, Dict, lookup, insert, lookup-insert}
use orvixa.Prelude.Sets.{member}
use orvixa.Prelude.Float.{Float, nought}
use orvixa.Feeds.Base.{Candle}
use orvixa.Backtest.Returns.{first_at, forward_return, returns_into, returns_from, forward_returns}

module _ {ℓ} {F : Type ℓ} ⦃f : Float F⦄ where
  -- The loop stops at the first candle that is not before the target time.
  pub record IsFirst (candles : List (Candle F)) (target_time : ℕ) (target : Candle F)
      : Type ℓ where
    pub at : ℕ
    pub stands : get_elem? candles at ≡ some target
    pub late : target_time ≤ target.ts
    pub before : (i : ℕ) (c : Candle F) → i < at → get_elem? candles i ≡ some c → c.ts < target_time

  first_at-IsFirst :
      (candles : List (Candle F)) (target_time : ℕ) (target : Candle F)
      → first_at candles target_time ≡ some target
      → IsFirst candles target_time target
  unfolding first_at
  first_at-IsFirst [] t target e = absurd (cc)
  first_at-IsFirst (c ∷ candles) t target e = elim (Bool-cases (ltb c.ts t)) [
    | inl early ↦
        let h = first_at-IsFirst candles t target (ground arith) in
        record {
          at = suc h.at;
          stands = h.stands;
          late = h.late;
          before = λ i. later c candles t h.at early h.before i;
        }
    | inr late ↦ record {
      at = 0;
      stands = ground arith;
      late = ground arith;
      before = λ i d lt s. absurd (omega (arith, lt));
    }
  ]
    where
      later :
          (c : Candle F) (candles : List (Candle F)) (t at : ℕ)
          → ltb c.ts t ≡ true
          → ((i : ℕ) (d : Candle F) → i < at → get_elem? candles i ≡ some d → d.ts < t)
          → (i : ℕ) (d : Candle F) → i < suc at
          → get_elem? (c ∷ candles) i ≡ some d
          → d.ts < t
      later c candles t at early h zero d lt s = ground arith
      later c candles t at early h (suc i) d lt s = h i d (omega (arith, lt)) s

  pub lookup-returns_into :
      (value : ℕ → Option F) (horizons : List ℕ) (out : Dict ℕ (Option F)) (h : ℕ)
      → lookup h (returns_into value horizons out)
        ≡ (if member h horizons then some (value h) else lookup h out)
  unfolding returns_into member
  lookup-returns_into value [] out h = refl
  lookup-returns_into value (g ∷ horizons) out h = ground (
    arith,
    lookup-returns_into value horizons (insert g (value g) out) h,
    lookup-insert g h (value g) out,
    ==_iff g h,
  )

  get_elem?-drop : (n : ℕ) (xs : List (Candle F)) → get_elem? (drop n xs) 0 ≡ get_elem? xs n
  get_elem?-drop zero xs = refl
  get_elem?-drop (suc n) [] = refl
  get_elem?-drop (suc n) (x ∷ xs) = get_elem?-drop n xs

  -- The entry, and the target that the loop finds.
  forward_return-target :
      (entry : Candle F) (from : List (Candle F)) (interval_ms h : ℕ) (r : F)
      → forward_return entry from interval_ms h ≡ some r
      → (target : Candle F) × (first_at from (entry.ts + h * interval_ms) ≡ some target)
        × (f.eq entry.close nought ≡ false)
        × (r ≡ f.sub (f.div target.close entry.close) (f.lit 1 1))
  unfolding forward_return
  forward_return-target entry from interval_ms h r e =
      elim (Option-cases (first_at from (entry.ts + h * interval_ms))) [
        | inl missing ↦ absurd (ground arith)
        | inr (target, found) ↦ (target, found, ground arith, ground arith)
      ]

  returns_from-target :
      (from : List (Candle F)) (horizons : List ℕ) (interval_ms h : ℕ) (r : F)
      → lookup h (returns_from from horizons interval_ms) ≡ some (some r)
      → (entry : Candle F) × (target : Candle F) × (get_elem? from 0 ≡ some entry)
        × IsFirst from (entry.ts + h * interval_ms) target
        × (f.eq entry.close nought ≡ false)
        × (r ≡ f.sub (f.div target.close entry.close) (f.lit 1 1))
  unfolding returns_from lookup
  returns_from-target [] horizons interval_ms h r e =
      absurd (ground (arith, lookup-returns_into (λ _. none) horizons [] h))
  returns_from-target (entry ∷ from) horizons interval_ms h r e =
      let all = entry ∷ from in
      let here : forward_return entry all interval_ms h ≡ some r =
        ground (arith, lookup-returns_into (forward_return entry all interval_ms) horizons [] h) in
      let (target, found, nonzero, value) = forward_return-target entry all interval_ms h r here in
      (entry, target, refl, first_at-IsFirst all _ target found, nonzero, value)

  -- A forward return over h intervals enters at the candle `execution_lag` after the signal's, whose
  -- close is not 0, and is taken from the first candle from there on that is h intervals of time past
  -- the entry, wherever the series has gaps.
  pub forward_returns_target :
      (candles : List (Candle F)) (idx : ℕ) (horizons : List ℕ) (execution_lag interval_ms h : ℕ)
      (r : F)
      → lookup h (forward_returns candles idx horizons execution_lag interval_ms) ≡ some (some r)
      → (entry : Candle F) × (target : Candle F) × (get_elem? candles (idx + execution_lag)
          ≡ some entry)
        × IsFirst (drop (idx + execution_lag) candles) (entry.ts + h * interval_ms) target
        × (f.eq entry.close nought ≡ false)
        × (r ≡ f.sub (f.div target.close entry.close) (f.lit 1 1))
  unfolding forward_returns
  forward_returns_target candles idx horizons execution_lag interval_ms h r e =
      let (entry, target, first, found, nonzero, value) =
        returns_from-target (drop (idx + execution_lag) candles) horizons interval_ms h r e in
      (
        entry,
        target,
        sym (get_elem?-drop (idx + execution_lag) candles) ∙ first,
        found,
        nonzero,
        value,
      )

  returns_from_keys :
      (from : List (Candle F)) (horizons : List ℕ) (interval_ms h : ℕ)
      → contains h (returns_from from horizons interval_ms) ≡ member h horizons
  unfolding returns_from lookup
  returns_from_keys [] horizons interval_ms h =
      ground (arith, lookup-returns_into (λ _. none) horizons [] h)
  returns_from_keys (entry ∷ from) horizons interval_ms h =
      ground
        (arith, lookup-returns_into (forward_return entry (entry ∷ from) interval_ms) horizons [] h)

  -- The keys of the result are the horizons, wherever the series ends.
  pub forward_returns_keys :
      (candles : List (Candle F)) (idx : ℕ) (horizons : List ℕ) (execution_lag interval_ms h : ℕ)
      → contains h (forward_returns candles idx horizons execution_lag interval_ms)
        ≡ member h horizons
  unfolding forward_returns
  forward_returns_keys candles idx horizons execution_lag interval_ms h =
      returns_from_keys (drop (idx + execution_lag) candles) horizons interval_ms h
