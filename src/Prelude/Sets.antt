-- ===== src/Prelude/Sets.antt =====
-- Python's `set` over any type with an equality: a list, read through membership.
use mathlib.Core.Path.{◌≡◌, refl, ap}
use mathlib.Core.Bool.{Bool, true, false, not, ◌&&◌, ◌||◌}
use mathlib.Core.List.{List, [], ◌∷◌, ◌++◌}
use native.Mathlib.Omega.{arith}
use orvixa.Prelude.Tests.{if◌then◌else◌}
use orvixa.Prelude.Lists.{select}
use orvixa.Prelude.Eq.{Eq}

module _ {ℓ} {A : Type ℓ} ⦃e : Eq A⦄ where
  -- `a in s`
  unfoldable pub member : A → List A → Bool
  member a [] = false
  member a (b ∷ s) = e.beq b a || member a s

  -- `s.add(a)`
  unfoldable pub include : A → List A → List A
  include a s = if member a s then s else s ++ a ∷ []

  -- `s.discard(a)`
  unfoldable pub discard : A → List A → List A
  discard a = select (λ b. not (e.beq b a))

  -- `s | t`, `s - t` and `s & t`
  unfoldable pub union : List A → List A → List A
  unfolding include
  union s [] = s
  union s (a ∷ t) = union (include a s) t

  unfoldable pub minus : List A → List A → List A
  minus s t = select (λ a. not (member a t)) s

  unfoldable pub meet : List A → List A → List A
  meet s t = select (λ a. member a t) s

  pub member-append : (a : A) (s t : List A) → member a (s ++ t) ≡ (member a s || member a t)
  unfolding member
  member-append a [] t = refl
  member-append a (b ∷ s) t = ground (arith, member-append a s t)

  member-one : (a b : A) → member b (a ∷ []) ≡ e.beq a b
  unfolding member
  member-one a b = ground arith

  member_of_beq : (a b : A) (s : List A) → e.beq a b ≡ true → member a s ≡ member b s
  member_of_beq a b s h = ap (λ c. member c s) ((e.beq_iff a b).0 h)

  member-cons : (a b : A) (s : List A) → member b (a ∷ s) ≡ (e.beq a b || member b s)
  unfolding member
  member-cons a b s = refl

  pub member_none : (b : A) → member b [] ≡ false
  unfolding member
  member_none b = refl

  pub member-include : (a b : A) (s : List A) → member b (include a s) ≡ (e.beq a b || member b s)
  unfolding include
  member-include a b s =
      ground (arith, member-append b s (a ∷ []), member-one a b, member_of_beq a b s)

  pub member-select :
      (p : A → Bool) (b : A) (s : List A) → member b (select p s) ≡ (member b s && p b)
  unfolding member
  member-select p b [] = refl
  member-select p b (c ∷ s) = ground (arith, member-select p b s, e.beq_iff c b)

  pub member-discard :
      (a b : A) (s : List A) → member b (discard a s) ≡ (member b s && not (e.beq b a))
  unfolding discard
  member-discard a b s = member-select (λ c. not (e.beq c a)) b s

  pub member-minus :
      (b : A) (s t : List A) → member b (minus s t) ≡ (member b s && not (member b t))
  unfolding minus
  member-minus b s t = member-select (λ a. not (member a t)) b s

  pub member-meet : (b : A) (s t : List A) → member b (meet s t) ≡ (member b s && member b t)
  unfolding meet
  member-meet b s t = member-select (λ a. member a t) b s

  pub member-union : (b : A) (s t : List A) → member b (union s t) ≡ (member b s || member b t)
  unfolding union
  member-union b s [] = ground (arith, member_none b)
  member-union b s (a ∷ t) =
      ground (arith, member-union b (include a s) t, member-include a b s, member-cons a b t)

  -- The same members.
  abbrev pub SameSet : List A → List A → Type ℓ
  SameSet s t = (a : A) → member a s ≡ member a t
