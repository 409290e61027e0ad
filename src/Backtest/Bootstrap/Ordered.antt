-- ===== src/Backtest/Bootstrap/Ordered.antt =====
-- The ends of the bootstrap intervals are in order.
use orvixa.Prelude.{
  ℕ, zero, suc, ◌-◌, ◌^◌, ◌≡◌, ◌≤◌, ◌<◌, refl, ◌∙◌, ap, min, List, [], ◌∷◌, some, All, length,
  get_elem?, Bool-cases, inl, inr, arith, if◌then◌else◌,
}
use orvixa.Prelude.Int.{pos, sub_ℕ, ltb_ℤ}
use orvixa.Prelude.Result.{ok, or_raise, index_error}
use orvixa.Prelude.Float.{Float, IsOrdered, ◌≼◌, of_ℕ}
use orvixa.Backtest.Bootstrap.{
  Random, at_index, place_value, sort_values, percentile, draws_of, resample, interval_of,
  bootstrap_ci,
}

-- `min(i, n - 1)`, of integers.
clipped :
    (n i : ℕ)
    → (if ltb_ℤ (sub_ℕ (suc n) 1) (pos i) then sub_ℕ (suc n) 1 else pos i) ≡ pos (min i (suc n - 1))
clipped n i = ground arith

module _ {ℓ} {F : Type ℓ} ⦃f : Float F⦄ where
  abbrev pub IsNumber : F → Type 0
  IsNumber x = x ≼ x

  -- Every value is a number, and at most those after it.
  abbrev IsRising : List F → Type 0
  IsRising [] = Unit
  IsRising (x ∷ xs) = (x ≼ x) × All (λ y. x ≼ y) xs × IsRising xs

  module _ (laws : IsOrdered F) where
    open laws use {refl_of_le, le_total, le_trans, lt-eq-not-le, num_of_lt, rank_mono}

    place-All : (P : F → Type 0) (x : F) (ys : List F) → P x → All P ys → All P (place_value x ys)
    unfolding place_value
    place-All P x [] p h = (p, tt)
    place-All P x (y ∷ ys) p h = elim (Bool-cases (f.lt y x)) [
      | inl past ↦ rw past (h.0, place-All P x ys p h.1)
      | inr here ↦ rw here (p, h)
    ]

    below-All : (x y : F) (ys : List F) → x ≼ y → All (λ z. y ≼ z) ys → All (λ z. x ≼ z) ys
    below-All x y [] h k = tt
    below-All x y (z ∷ ys) h k = (le_trans x y z h k.0, below-All x y ys h k.1)

    place-IsRising : (x : F) (ys : List F) → x ≼ x → IsRising ys → IsRising (place_value x ys)
    unfolding place_value
    place-IsRising x [] num h = (num, tt, tt)
    place-IsRising x (y ∷ ys) num h = elim (Bool-cases (f.lt y x)) [
      | inl past ↦
          let under : y ≼ x = ground (arith, lt-eq-not-le y x h.0 num, le_total x y num h.0) in
          rw past (h.0, place-All (λ z. y ≼ z) x ys under h.1, place-IsRising x ys num h.2)
      | inr here ↦
          let under : x ≼ y = ground (arith, lt-eq-not-le y x h.0 num) in
          rw here (num, (under, below-All x y ys under h.1), h)
    ]

    sort-IsRising : (xs : List F) → All IsNumber xs → IsRising (sort_values xs)
    unfolding sort_values
    sort-IsRising [] h = tt
    sort-IsRising (x ∷ xs) h = place-IsRising x (sort_values xs) h.0 (sort-IsRising xs h.1)

    length-place : (x : F) (ys : List F) → length (place_value x ys) ≡ suc (length ys)
    unfolding place_value
    length-place x [] = refl
    length-place x (y ∷ ys) = ground (arith, length-place x ys)

    length-sort : (xs : List F) → length (sort_values xs) ≡ length xs
    unfolding sort_values
    length-sort [] = refl
    length-sort (x ∷ xs) = omega (arith, length-place x (sort_values xs), length-sort xs)

    -- Two elements of a rising list.
    first_below :
        (x : F) (xs : List F) (j : ℕ)
        → All (λ y. x ≼ y) xs
        → j < length xs
        → (b : F) × (get_elem? xs j ≡ some b) × (x ≼ b)
    first_below x [] j h k = absurd (omega arith)
    first_below x (y ∷ xs) zero h k = (y, refl, h.0)
    first_below x (y ∷ xs) (suc j) h k = first_below x xs j h.1 (omega arith)

    two_rising :
        (xs : List F) (i j : ℕ)
        → IsRising xs
        → i ≤ j
        → j < length xs
        → (a : F) × (b : F) × (get_elem? xs i ≡ some a) × (get_elem? xs j ≡ some b) × (a ≼ b)
    two_rising [] i j h e k = absurd (omega arith)
    two_rising (x ∷ xs) zero zero h e k = (x, x, refl, refl, h.0)
    two_rising (x ∷ xs) zero (suc j) h e k =
        let (b, q, l) = first_below x xs j h.1 (omega arith) in (x, b, refl, q, l)
    two_rising (x ∷ xs) (suc i) zero h e k = absurd (omega arith)
    two_rising (x ∷ xs) (suc i) (suc j) h e k = two_rising xs i j h.2 (omega arith) (omega arith)

    percentile_at :
        (sorted : List F) (pct x : F) (i : ℕ)
        → 0 < length sorted
        → f.truncate (f.mul pct (of_ℕ (length sorted))) ≡ some (pos i)
        → get_elem? sorted (min i (length sorted - 1)) ≡ some x
        → percentile sorted pct ≡ ok x
    unfolding percentile at_index
    percentile_at [] pct x i some_there e h = absurd (omega arith)
    percentile_at (y ∷ sorted) pct x i some_there e h =
        rw e (ap (at_index (y ∷ sorted)) (clipped (length sorted) i) ∙ ap (or_raise index_error) h)

    -- Of some numbers, the percentiles 2.5 and 97.5 are there, and in order.
    interval_of_ordered :
        (values : List F)
        → All IsNumber values
        → 0 < length values
        → length values ≤ 2 ^ 53
        → (low : F) × (high : F) × (interval_of values ≡ ok (low, high)) × (low ≼ high)
    unfolding interval_of
    interval_of_ordered values nums some_there small =
        let sorted = sort_values values in
        let same = length-sort values in
        let (i, j, ei, ej, le) =
          rank_mono 25 1_000 975 1_000 (length sorted) (omega arith) (omega arith) (omega arith)
            (omega arith) (omega arith) in
        let (a, b, ga, gb, ab) =
          two_rising sorted (min i (length sorted - 1)) (min j (length sorted - 1))
            (sort-IsRising values nums) (omega (arith, le)) (omega (arith, same)) in
        (
          a,
          b,
          rw (percentile_at sorted (f.lit 25 1_000) a i (omega arith) ei ga)
              (rw (percentile_at sorted (f.lit 975 1_000) b j (omega arith) ej gb) refl),
          ab,
        )

    length-resample :
        {S : Type 0} (rng : Random F S) (xs ys : List F) (n m iterations : ℕ) (s : S)
        → (length (resample rng xs ys n m iterations s).0 ≡ iterations)
          × (length (resample rng xs ys n m iterations s).1 ≡ iterations)
    unfolding resample
    length-resample rng xs ys n m zero s = (refl, refl)
    length-resample rng xs ys n m (suc iterations) s =
        let after = (rng.choices ys m (rng.choices xs n s).1).1 in
        let (a, b) = length-resample rng xs ys n m iterations after in (ap suc a, ap suc b)

    -- For at least one iteration, where both effective sizes round and every resampled mean and edge is
    -- a number, the bootstrap returns two intervals, and the low end of each is at most its high end.
    pub bootstrap_ci_ordered :
        {S : Type 0} (rng : Random F S) (signal_returns baseline_returns : List F)
        (signal_neff baseline_neff : F) (iterations seed sig_n base_n : ℕ)
        → draws_of signal_neff ≡ ok sig_n
        → draws_of baseline_neff ≡ ok base_n
        → 0 < iterations
        → iterations ≤ 2 ^ 53
        → All IsNumber
            (resample rng signal_returns baseline_returns sig_n base_n iterations
              (rng.seeded seed)).0
        → All IsNumber
            (resample rng signal_returns baseline_returns sig_n base_n iterations
              (rng.seeded seed)).1
        → (mean_low : F) × (mean_high : F) × (edge_low : F) × (edge_high : F) × (bootstrap_ci rng
              signal_returns baseline_returns signal_neff baseline_neff iterations seed
            ≡ ok ((mean_low, mean_high), (edge_low, edge_high)))
          × (mean_low ≼ mean_high)
          × (edge_low ≼ edge_high)
    unfolding bootstrap_ci
    bootstrap_ci_ordered rng xs ys signal_neff baseline_neff iterations seed n m hn hm some_there
          small means edges =
        let drawn = resample rng xs ys n m iterations (rng.seeded seed) in
        let (lm, le) = length-resample rng xs ys n m iterations (rng.seeded seed) in
        let (a, b, e1, ab) =
          interval_of_ordered drawn.0 means (omega (arith, lm)) (omega (arith, lm)) in
        let (c, d, e2, cd) =
          interval_of_ordered drawn.1 edges (omega (arith, le)) (omega (arith, le)) in
        (a, b, c, d, rw hn (rw hm (rw e1 (rw e2 refl))), ab, cd)
