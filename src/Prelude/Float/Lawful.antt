-- ===== src/Prelude/Float/Lawful.antt =====
-- The laws of floats hold of the fixed-point numbers.
use Prim.Native.Nat.{ℕ, ◌+◌, ◌*◌, ◌/◌, ◌≤◌, ◌<◌}
use mathlib.Core.Path.{◌≡◌, refl, ap}
use mathlib.Core.Bool.{true}
use native.Mathlib.Nat.{mul-div-le, mul-le-mul_right, le_of_mul-le-mul_right, le-div_iff_mul-le}
use mathlib.Core.Option.{some}
use native.Mathlib.Omega.{arith}
use orvixa.Prelude.Int.{ℤ, pos, negsuc, leb_ℤ, quot_ℕ, ◌*ℤ◌}
use orvixa.Prelude.Tests.{le→leb}
use orvixa.Prelude.Float.{IsOrdered}
use orvixa.Prelude.Float.Fixed.{Fixed, fixed_float, scale, rounded, truncated, product}

quotient_mono : (n a b c d : ℕ) → 0 < b → 0 < d → a * d ≤ c * b → a * n / b ≤ c * n / d
quotient_mono n a b c d hb hd h =
    let q = a * n / b in
    let low : q * d * b ≤ a * n * d = omega (arith, mul-le-mul_right d (mul-div-le (a * n) b)) in
    let high : a * n * d ≤ c * n * b = omega (arith, mul-le-mul_right n h) in
    let all : q * d * b ≤ c * n * b = omega arith in
    (le-div_iff_mul-le hd).1 (le_of_mul-le-mul_right all hb)

between :
    (x : ℤ) (a b : ℕ)
    → leb_ℤ (pos (a * scale / 1)) x ≡ true
    → leb_ℤ x (pos (b * scale / 1)) ≡ true
    → (n : ℕ) × (rounded x ≡ pos n) × (a ≤ n) × (n ≤ b)
unfolding rounded
between (pos m) a b h k = ((m + 5_000) / scale, refl, ground arith, ground arith)
between (negsuc m) a b h k = ground arith

product-pos : (x m : ℕ) → product (pos x) (pos m) ≡ pos (x * m / scale)
unfolding product quot_ℕ ◌*ℤ◌
product-pos x m = ground arith

-- The index that a literal and a number of elements give.
truncated-product : (x n : ℕ) → truncated (product (pos x) (pos n)) ≡ pos (x * n / scale / scale)
unfolding truncated
truncated-product x n = ap truncated (product-pos x n)

div_mono : (x y d : ℕ) → 0 < d → x ≤ y → x / d ≤ y / d
div_mono x y d hd h = (le-div_iff_mul-le hd).1 (omega (arith, mul-div-le x d, h))

pub Fixed-IsOrdered : IsOrdered Fixed
Fixed-IsOrdered = record {
  refl_of_le = λ x y h. ground arith;
  le_trans = λ x y z h k. ground arith;
  le_total = λ x y h k. ground arith;
  lt-eq-not-le = λ x y h k. ground arith;
  num_of_lt = λ x y h. ground arith;
  eq-eq-le = λ x y. ground arith;
  lit_mono = λ a b c d hb hd h. le→leb _ _ (omega (arith, quotient_mono scale a b c d hb hd h));
  round_between = λ x a b e h k. let (n, p, l, u) = between x a b h k in (n, ap some p, l, u);
  rank_mono = λ a b c d n hb hd h one small. (
    a * scale / b * (n * scale / 1) / scale / scale,
    c * scale / d * (n * scale / 1) / scale / scale,
    ap some (truncated-product _ _),
    ap some (truncated-product _ _),
    div_mono _ _ scale (omega arith) (
        div_mono _ _ scale (omega arith)
          (mul-le-mul_right (n * scale / 1) (quotient_mono scale a b c d hb hd h))),
  );
  round_nan = λ x h. absurd (h (ground arith));
}
