-- ===== src/Prelude/Float.antt =====
-- What the program does with a Python `float`, as an interface, and the facts of IEEE 754 arithmetic
-- that proofs use. A comparison with NaN is false; `x ≼ x` says that `x` is a number.
pub mod Fixed
pub mod Lawful
pub mod Order
use Prim.Native.Nat.{ℕ, suc, ◌*◌, ◌^◌, ◌≤◌, ◌<◌}
use mathlib.Core.Path.{◌≡◌, refl}
use mathlib.Core.Logic.{◌⊎◌}
use mathlib.Core.Bool.{Bool, true, false, not, ◌&&◌}
use mathlib.Core.Option.{Option, none, some}
use mathlib.Core.List.{List, [], ◌∷◌}
use native.Mathlib.Omega.{arith}
use orvixa.Prelude.Tests.{if◌then◌else◌}
use orvixa.Prelude.Int.{ℤ, pos}
use orvixa.Prelude.Eq.{Text}

pub record Float {ℓ} (F : Type ℓ) : Type ℓ where
  -- The double nearest to n / d: a literal, an integer with d = 1, a quotient of two integers.
  pub lit : ℕ → ℕ → F
  pub add : F → F → F
  pub sub : F → F → F
  pub mul : F → F → F
  -- `a / b` for b other than 0, where Python does not raise.
  pub div : F → F → F
  pub neg : F → F
  pub abs : F → F
  pub log : F → F
  pub sqrt : F → F
  pub cos : F → F
  -- The built-in `sum`.
  pub sum : List F → F
  pub lt : F → F → Bool
  pub le : F → F → Bool
  pub eq : F → F → Bool
  -- `int(round(x))`, which raises on NaN and on the infinities.
  pub round : F → Option ℤ
  -- `int(x)`, which raises on the same.
  pub truncate : F → Option ℤ
  -- `round(x, places)`
  pub round_to : ℕ → F → F
  -- `float(text)`, which raises on a text that is no number.
  pub parse : Text → Option F

module _ {ℓ} {F : Type ℓ} ⦃f : Float F⦄ where
  infix 4 ◌≼◌
  abbrev pub ◌≼◌ : F → F → Type 0
  x ≼ y = f.le x y ≡ true

  abbrev pub nought : F
  nought = f.lit 0 1

  abbrev pub of_ℕ : ℕ → F
  of_ℕ n = f.lit n 1

  -- `max(x, y)` and `min(x, y)` keep the first unless the second is strictly past it.
  unfoldable pub fmax : F → F → F
  fmax x y = if f.lt x y then y else x

  unfoldable pub fmin : F → F → F
  fmin x y = if f.lt y x then y else x

  -- `max(xs)` and `min(xs)` of a list that starts with `x`.
  unfoldable pub max_of : F → List F → F
  max_of x [] = x
  max_of x (y ∷ ys) = max_of (if f.lt x y then y else x) ys

  unfoldable pub min_of : F → List F → F
  min_of x [] = x
  min_of x (y ∷ ys) = min_of (if f.lt y x then y else x) ys

pub record IsOrdered {ℓ} (F : Type ℓ) ⦃f : Float F⦄ : Type ℓ where
  pub refl_of_le : (x y : F) → x ≼ y → (x ≼ x) × (y ≼ y)
  pub le_trans : (x y z : F) → x ≼ y → y ≼ z → x ≼ z
  pub le_total : (x y : F) → x ≼ x → y ≼ y → (x ≼ y) ⊎ (y ≼ x)
  pub lt-eq-not-le : (x y : F) → x ≼ x → y ≼ y → f.lt x y ≡ not (f.le y x)
  pub num_of_lt : (x y : F) → f.lt x y ≡ true → (x ≼ x) × (y ≼ y)
  pub eq-eq-le : (x y : F) → f.eq x y ≡ (f.le x y && f.le y x)
  pub lit_mono : (a b c d : ℕ) → 0 < b → 0 < d → a * d ≤ c * b → f.lit a b ≼ f.lit c d
  -- Rounding keeps bounds that are integers, and an integer up to 2^53 is a double.
  pub round_between :
      (x : F) (a b : ℕ)
      → b ≤ 2 ^ 53
      → of_ℕ a ≼ x
      → x ≼ of_ℕ b
      → (n : ℕ) × (f.round x ≡ some (pos n)) × (a ≤ n) × (n ≤ b)
  -- A product with a number of elements is monotone in the literal, and so is its truncation; for a
  -- literal of at most 1 neither is infinite.
  pub rank_mono :
      (a b c d n : ℕ)
      → 0 < b
      → 0 < d
      → a * d ≤ c * b
      → c ≤ d
      → n ≤ 2 ^ 53
      → (i : ℕ) × (j : ℕ) × (f.truncate (f.mul (f.lit a b) (of_ℕ n)) ≡ some (pos i))
        × (f.truncate (f.mul (f.lit c d) (of_ℕ n)) ≡ some (pos j))
        × (i ≤ j)
  pub round_nan : (x : F) → ¬ (x ≼ x) → f.round x ≡ none
