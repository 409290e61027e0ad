-- ===== src/Prelude/Float/Order.antt =====
-- The order of floats, `min` and `max` under the laws.
use Prim.Native.Nat.{ℕ, ◌^◌, ◌≤◌}
use mathlib.Core.Path.{◌≡◌}
use mathlib.Core.Logic.{◌⊎◌, inl, inr}
use mathlib.Core.Option.{some, none}
use native.Mathlib.Omega.{arith}
use orvixa.Prelude.Tests.{Bool-cases}
use orvixa.Prelude.Int.{ℤ, pos}
use orvixa.Prelude.Float.{Float, IsOrdered, ◌≼◌, of_ℕ, nought, fmax, fmin}

module _ {ℓ} {F : Type ℓ} ⦃f : Float F⦄ (laws : IsOrdered F) where
  open laws use {
    refl_of_le, le_trans, le_total, lt-eq-not-le, num_of_lt, lit_mono, round_between, round_nan,
  }

  pub le-fmax : (x y : F) → x ≼ x → y ≼ y → (x ≼ fmax x y) × (y ≼ fmax x y)
  unfolding fmax
  le-fmax x y hx hy = ground (arith, lt-eq-not-le x y hx hy, le_total x y hx hy)

  pub fmin-le : (x y : F) → x ≼ x → y ≼ y → (fmin x y ≼ x) × (fmin x y ≼ y)
  unfolding fmin
  fmin-le x y hx hy = ground (arith, lt-eq-not-le y x hy hx, le_total x y hx hy)

  -- A number that is clamped from below and then from above lies between the bounds.
  pub clamp_bounds :
      (lo hi x : F) → x ≼ x → lo ≼ hi → (lo ≼ fmin (fmax x lo) hi) × (fmin (fmax x lo) hi ≼ hi)
  unfolding fmin fmax
  clamp_bounds lo hi x hx h =
      let (hlo, hhi) = refl_of_le lo hi h in
      ground (
        arith,
        lt-eq-not-le x lo hx hlo,
        le_total x lo hx hlo,
        lt-eq-not-le hi x hhi hx,
        lt-eq-not-le hi lo hhi hlo,
        le_total hi x hhi hx,
      )

  -- NaN passes through `min` and `max` in first place.
  pub clamp_nan : (lo hi x : F) → ¬ (x ≼ x) → ¬ (fmin (fmax x lo) hi ≼ fmin (fmax x lo) hi)
  unfolding fmin fmax
  clamp_nan lo hi x hx = ground (arith, num_of_lt x lo, num_of_lt hi x)

  -- `int(round(min(max(x, 0), n)))` raises, or returns an integer from 0 to n.
  pub round_clamp :
      (n : ℕ) (x : F) {r : ℤ}
      → n ≤ 2 ^ 53
      → f.round (fmin (fmax x nought) (of_ℕ n)) ≡ some r
      → (m : ℕ) × (r ≡ pos m) × (m ≤ n)
  round_clamp n x small e = elim (Bool-cases (f.le x x)) [
    | inl num ↦
        let (low, high) =
          clamp_bounds nought (of_ℕ n) x num
            (lit_mono 0 1 n 1 (omega arith) (omega arith) (omega arith)) in
        let (m, q, _, u) = round_between (fmin (fmax x nought) (of_ℕ n)) 0 n small low high in
        (m, ground arith, u)
    | inr nan ↦ absurd (ground (arith, round_nan _ (clamp_nan nought (of_ℕ n) x (λ h. cc))))
  ]

  -- `int(round(min(max(x, 0), n)))` returns an integer from 0 to n if x is a number, and raises if not.
  pub round_clamp_total :
      (n : ℕ) (x : F)
      → n ≤ 2 ^ 53
      → ((x ≼ x) × ((m : ℕ) × (f.round (fmin (fmax x nought) (of_ℕ n)) ≡ some (pos m)) × (m ≤ n)))
        ⊎ (¬ (x ≼ x) × (f.round (fmin (fmax x nought) (of_ℕ n)) ≡ none))
  round_clamp_total n x small = elim (Bool-cases (f.le x x)) [
    | inl num ↦
        let (low, high) =
          clamp_bounds nought (of_ℕ n) x num
            (lit_mono 0 1 n 1 (omega arith) (omega arith) (omega arith)) in
        let (m, q, _, u) = round_between (fmin (fmax x nought) (of_ℕ n)) 0 n small low high in
        inl (num, (m, q, u))
    | inr nan ↦
        let isnt : ¬ (x ≼ x) = λ h. cc in inr (isnt, round_nan _ (clamp_nan nought (of_ℕ n) x isnt))
  ]
