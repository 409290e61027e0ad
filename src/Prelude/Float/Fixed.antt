-- ===== src/Prelude/Float/Fixed.antt =====
-- Fixed-point numbers in ten-thousandths: floats on which tests and witnesses run. `log` and `sqrt` are
-- their tangents at 1, `cos` its tangent at 0, and rounding to places leaves four.
use mathlib.Core.List.{foldl}
use Prim.Native.Nat.{ℕ, suc, ◌+◌, ◌-◌, ◌*◌, ◌/◌}
use mathlib.Core.Bool.{Bool, true, ◌&&◌}
use mathlib.Core.Option.{Option, none, some}
use mathlib.Core.List.{List, [], ◌∷◌}
use orvixa.Prelude.Tests.{leb, if◌then◌else◌}
use orvixa.Prelude.Int.{
  ℤ, pos, negsuc, pos_part, neg_part, sub_ℕ, ◌+ℤ◌, ◌-ℤ◌, ◌*ℤ◌, quot_ℕ, ltb_ℤ, leb_ℤ, eqb_ℤ,
}
use orvixa.Prelude.Eq.{Text}
use orvixa.Prelude.Float.{Float}

abbrev pub Fixed : Type 0
Fixed = ℤ

abbrev pub scale : ℕ
scale = 10_000

unfoldable pub negate : ℤ → ℤ
negate a = sub_ℕ (neg_part a) (pos_part a)

unfoldable pub absolute : ℤ → ℤ
absolute a = pos (pos_part a + neg_part a)

unfoldable pub quotient : ℤ → ℤ → ℤ
unfolding quot_ℕ negate ◌*ℤ◌
quotient a (pos n) = quot_ℕ (a *ℤ pos scale) n
quotient a (negsuc n) = negate (quot_ℕ (a *ℤ pos scale) (suc n))

unfoldable pub rounded : ℤ → ℤ
rounded (pos n) = pos ((n + 5_000) / scale)
rounded (negsuc n) = sub_ℕ 0 ((suc n + 5_000) / scale)

unfoldable pub truncated : ℤ → ℤ
truncated (pos n) = pos (n / scale)
truncated (negsuc n) = sub_ℕ 0 (suc n / scale)

parse_from : ℕ → Text → Option ℤ
parse_from n [] = some (pos (n * scale))
parse_from n (c ∷ cs) =
    let rest = parse_from (n * 10 + (c - 48)) cs in if leb 48 c && leb c 57 then rest else none

unfoldable pub parsed : Text → Option ℤ
unfolding parse_from
parsed [] = none
parsed (c ∷ cs) = parse_from 0 (c ∷ cs)

unfoldable pub total : List ℤ → ℤ
unfolding ◌+ℤ◌
total = foldl ◌+ℤ◌ (pos 0)

unfoldable pub halved : ℤ → ℤ
unfolding quot_ℕ
halved a = quot_ℕ a 2

unfoldable pub product : ℤ → ℤ → ℤ
unfolding quot_ℕ ◌*ℤ◌
product a b = quot_ℕ (a *ℤ b) scale

-- One line opens all that a run needs.
unfoldable pub runs : Bool
unfolding ◌+ℤ◌ ◌-ℤ◌ negate absolute quotient rounded truncated parsed total halved product
runs = true

instance abbrev pub fixed_float : Float Fixed
fixed_float = record {
  lit = λ n d. pos (n * scale / d);
  add = ◌+ℤ◌;
  sub = ◌-ℤ◌;
  mul = product;
  div = quotient;
  neg = negate;
  abs = absolute;
  log = λ a. a -ℤ pos scale;
  sqrt = λ a. halved (a +ℤ pos scale);
  cos = λ _. pos scale;
  sum = total;
  lt = ltb_ℤ;
  le = leb_ℤ;
  eq = eqb_ℤ;
  round = λ a. some (rounded a);
  truncate = λ a. some (truncated a);
  round_to = λ _ a. a;
  parse = parsed;
}
