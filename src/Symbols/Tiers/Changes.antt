-- ===== src/Symbols/Tiers/Changes.antt =====
-- What the list of tier changes says.
use orvixa.Prelude.{
  ◌++◌, ◌∙◌, ◌∙◌, Bool-cases, some, none, ℕ, ◌≡◌, inl, inr, refl, false, List, [], ◌∷◌,
  if◌then◌else◌, arith,
}
use orvixa.Prelude.Eq.{Text, text_eq, text_beq, text_beq_iff}
use orvixa.Prelude.Dict.{Dict, lookup, Distinct}
use orvixa.Prelude.Float.{Float}
use orvixa.Symbols.Models.{SymbolState, Settings, TierChange}
use orvixa.Symbols.Tiers.{changes_of, assign_one, assign_tiers}

-- The tier of a symbol after the logged changes, in order.
pub tier_after : List TierChange → Text → ℕ → ℕ
tier_after [] base tier = tier
tier_after (c ∷ changes) base tier =
    tier_after changes base (if text_beq c.base base then c.to_tier else tier)

tier_after-append :
    (xs ys : List TierChange) (base : Text) (tier : ℕ)
    → tier_after (xs ++ ys) base tier ≡ tier_after ys base (tier_after xs base tier)
unfolding tier_after
tier_after-append [] ys base tier = refl
tier_after-append (c ∷ xs) ys base tier = tier_after-append xs ys base _

module _ {ℓ} {F : Type ℓ} ⦃f : Float F⦄ (settings : Settings F) (top_n : List Text) where
  tier_after-one :
      (base : Text) (s : SymbolState F) (promoted : List Text)
      → let one = assign_one settings top_n base s promoted in
        tier_after one.changes base s.tier ≡ one.state.tier
  unfolding assign_one changes_of tier_after
  tier_after-one base s promoted = ground (arith, text_beq_iff base base)

  tier_after-one_others :
      (base other : Text) (s : SymbolState F) (promoted : List Text) (tier : ℕ)
      → text_beq base other ≡ false
      → tier_after (assign_one settings top_n base s promoted).changes other tier ≡ tier
  unfolding assign_one changes_of tier_after
  tier_after-one_others base other s promoted tier ne = ground arith

  tier_after_absent :
      (other : Text) (states : Dict Text (SymbolState F)) (promoted : List Text) (tier : ℕ)
      → lookup other states ≡ none
      → tier_after (assign_tiers settings top_n states promoted).2 other tier ≡ tier
  unfolding assign_tiers lookup
  tier_after_absent other [] promoted tier h = unfold tier_after in refl
  tier_after_absent other ((base, s) ∷ states) promoted tier h =
      let one = assign_one settings top_n base s promoted in
      let rest = (assign_tiers settings top_n states one.promoted).2 in
      tier_after-append one.changes rest other tier
      ∙ ground (
        arith,
        tier_after-one_others base other s promoted tier,
        tier_after_absent other states one.promoted tier,
      )

  -- The logged changes account for every tier: after `_assign_tiers` a symbol that was known is still
  -- known, and its tier is what the changes of its name, in order, make of the tier it had.
  pub assign_tiers_logged :
      (base : Text) (states : Dict Text (SymbolState F)) (promoted : List Text) {s : SymbolState F}
      → Distinct states
      → lookup base states ≡ some s
      → let (states', _, changes) = assign_tiers settings top_n states promoted in
        (s' : SymbolState F) × (lookup base states' ≡ some s')
        × (s'.tier ≡ tier_after changes base s.tier)
  unfolding assign_tiers lookup
  assign_tiers_logged base [] promoted d e = absurd (cc)
  assign_tiers_logged base ((key, t) ∷ states) promoted {s} (fresh, d) e =
      let one = assign_one settings top_n key t promoted in
      let rest = (assign_tiers settings top_n states one.promoted).2 in
      elim (Bool-cases (text_beq key base)) [
        | inl same ↦ (
          one.state,
          rw same,
          ground (
            arith,
            text_beq_iff key base,
            tier_after-append one.changes rest base s.tier,
            tier_after-one key t promoted,
            tier_after_absent key states one.promoted one.state.tier,
          ),
        )
        | inr other ↦
            let (s', l, q) =
              assign_tiers_logged base states one.promoted {s = s} d (ground arith) in
            (
              s',
              rw other l,
              ground (
                arith,
                tier_after-append one.changes rest base s.tier,
                tier_after-one_others key base t promoted s.tier,
              ),
            )
      ]
