-- ===== src/Prelude/Entries.antt =====
-- The entries of a dict, and assignments to it.
use mathlib.Core.Path.{◌≡◌, refl, sym, ap, ◌∙◌}
use mathlib.Core.Bool.{Bool, true, false}
use mathlib.Core.Logic.{inl, inr}
use mathlib.Core.Option.{none, some}
use mathlib.Core.List.{List, [], ◌∷◌, ◌++◌}
use native.Mathlib.Omega.{arith}
use orvixa.Prelude.Tests.{if◌then◌else◌, Bool-cases}
use orvixa.Prelude.Lists.{All}
use orvixa.Prelude.Eq.{Eq}
use orvixa.Prelude.Dict.{Dict, Distinct, lookup, insert, get_or, lookup-insert}

none-some {ℓ} : {A : Type ℓ} {a : A} → ¬ (none ≡ some a)
none-some h = ground arith

flipped {ι} : {K : Type ι} ⦃e : Eq K⦄ (j k : K) → e.beq j k ≡ false → e.beq k j ≡ false
flipped ⦃e⦄ j k h = ground (arith, e.beq_iff j k, e.beq_iff k j)

module _ {ι κ} {K : Type ι} {V : Type κ} ⦃e : Eq K⦄ where
  pub insert-Distinct : (k : K) (v : V) (d : Dict K V) → Distinct d → Distinct (insert k v d)
  unfolding insert lookup
  insert-Distinct k v [] h = (refl, tt)
  insert-Distinct k v ((j, w) ∷ d) (fresh, h) = elim (Bool-cases (e.beq j k)) [
    | inl same ↦ rw same (fresh, h)
    | inr other ↦
        let missed = lookup-insert k j v d ∙ rw (flipped j k other) fresh in
        rw other (missed, insert-Distinct k v d h)
  ]

  pub get_or-insert :
      (k j : K) (v w : V) (d : Dict K V)
      → get_or j w (insert k v d) ≡ (if e.beq k j then v else get_or j w d)
  get_or-insert k j v w d = ground (arith, lookup-insert k j v d)

  later :
      (k : K) (v : V) (d : Dict K V) (j : K) (w : V)
      → lookup k d ≡ none
      → lookup j d ≡ some w
      → lookup j ((k, v) ∷ d) ≡ some w
  unfolding lookup
  later k v d j w fresh l = elim (Bool-cases (e.beq k j)) [
    | inl same ↦
        let equal : k ≡ j = (e.beq_iff k j).0 same in
        absurd (none-some (sym fresh ∙ ap (λ i. lookup i d) equal ∙ l))
    | inr other ↦ rw other l
  ]

  -- What holds of every value that is looked up holds of every entry.
  pub entries-All {ο} :
      (P : K → V → Type ο) (d : Dict K V)
      → Distinct d
      → ((k : K) (v : V) → lookup k d ≡ some v → P k v)
      → All (λ entry. P entry.0 entry.1) d
  unfolding lookup
  entries-All P [] h p = tt
  entries-All P ((k, v) ∷ d) (fresh, h) p = (
    p k v (rw ((e.beq_iff k k).1 refl) refl),
    entries-All P d h (λ j w l. p j w (later k v d j w fresh l)),
  )

pub if-cons {ℓ} :
    {A : Type ℓ} (b : Bool) (x : A) (xs : List A)
    → (if b then x ∷ xs else xs) ≡ (if b then x ∷ [] else []) ++ xs
if-cons true x xs = refl
if-cons false x xs = refl
