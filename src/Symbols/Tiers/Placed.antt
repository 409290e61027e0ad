-- ===== src/Symbols/Tiers/Placed.antt =====
-- Where a round of tier assignment puts a symbol.
use orvixa.Prelude.{
  ◌&&◌, ◌⊎◌, inr, inl, refl, none, ◌∙◌, sym, All, ℕ, ◌≡◌, Bool, true, false, not, ◌||◌, List, [],
  ◌∷◌, if◌then◌else◌, arith,
}
use orvixa.Prelude.Eq.{text_beq, Text, text_eq, text_beq_iff}
use orvixa.Prelude.Dict.{Dict, lookup, Distinct}
use orvixa.Prelude.Sets.{member, include, discard, member-include, member-discard}
use orvixa.Prelude.Float.{Float}
use orvixa.Symbols.Models.{
  Status, frozen, trading, Tag, spike, tier_core, tier_watch, tier_rest, SymbolState, Settings,
}
use orvixa.Symbols.Tiers.{Dict, assign_tiers, base_tier, apply_spike_logic, tags_of, assign_one}

module _ {ℓ} {F : Type ℓ} ⦃f : Float F⦄ (settings : Settings F) (top_n : List Text) where
  -- The tier by the configured sets, the volume ranking and the promoted symbols.
  pub expected_tier : Text → Text → List Text → ℕ
  expected_tier base pair promoted =
      if member base settings.core_set
      then tier_core
      else if member base settings.meme_set || member pair top_n
      then tier_watch
      else if member base promoted
      then tier_watch
      else tier_rest

  -- Neither in the core, nor a meme symbol, nor among the first by volume.
  unfoldable pub is_ordinary : Text → Text → Bool
  is_ordinary base pair =
      not (member base settings.core_set || member base settings.meme_set || member pair top_n)

  abbrev pub has_spike : List Tag → Bool
  has_spike [] = false
  has_spike (spike ∷ _) = true
  has_spike (_ ∷ tags) = has_spike tags

  -- A symbol stands in the tier that is expected of it, is promoted only if it is ordinary, and has the
  -- tag "spike" exactly if it is promoted.
  pub record IsPlaced (promoted : List Text) (base : Text) (s : SymbolState F) : Type 0 where
    pub tier_expected : s.tier ≡ expected_tier base s.pair promoted
    pub promoted_ordinary : (member base promoted && not (is_ordinary base s.pair)) ≡ false
    pub spike_tagged : has_spike s.tags ≡ member base promoted

  pub member-include_self : (a : Text) (s : List Text) → member a (include a s) ≡ true
  member-include_self a s = ground (arith, member-include a a s, text_beq_iff a a)

  pub member-discard_self : (a : Text) (s : List Text) → member a (discard a s) ≡ false
  member-discard_self a s = ground (arith, member-discard a a s, text_beq_iff a a)

  assign_one-IsPlaced :
      (base : Text) (s : SymbolState F) (promoted : List Text)
      → s.status ≡ trading
      → let one = assign_one settings top_n base s promoted in IsPlaced one.promoted base one.state
  unfolding assign_one base_tier apply_spike_logic tags_of expected_tier is_ordinary
  assign_one-IsPlaced base s promoted e =
      ground (arith, member-include_self base promoted, member-discard_self base promoted)

  -- A round for one symbol leaves the other symbols' membership alone.
  assign_one_others :
      (base other : Text) (s : SymbolState F) (promoted : List Text)
      → text_beq base other ≡ false
      → member other (assign_one settings top_n base s promoted).promoted ≡ member other promoted
  unfolding assign_one apply_spike_logic
  assign_one_others base other s promoted ne = ground (
    arith,
    member-include base other promoted,
    member-discard base other promoted,
    text_beq_iff base other,
    text_beq_iff other base,
  )

  assign_tiers_others :
      (other : Text) (states : Dict Text (SymbolState F)) (promoted : List Text)
      → lookup other states ≡ none
      → member other (assign_tiers settings top_n states promoted).1 ≡ member other promoted
  unfolding assign_tiers lookup
  assign_tiers_others other [] promoted h = refl
  assign_tiers_others other ((base, s) ∷ states) promoted h =
      let one = assign_one settings top_n base s promoted in
      ground (
        arith,
        assign_one_others base other s promoted,
        assign_tiers_others other states one.promoted,
      )

  abbrev pub IsFrozenOrPlaced : List Text → Text × SymbolState F → Type 0
  IsFrozenOrPlaced promoted (base, s) = (s.status ≡ frozen) ⊎ IsPlaced promoted base s

  Status-cases : (t : Status) → (t ≡ trading) ⊎ (t ≡ frozen)
  Status-cases trading = inl refl
  Status-cases frozen = inr refl

  IsPlaced-same :
      (p q : List Text) (base : Text) (s : SymbolState F)
      → member base p ≡ member base q
      → IsPlaced p base s
      → IsPlaced q base s
  unfolding expected_tier
  IsPlaced-same p q base s e h = ground arith

  assign_one_status :
      (base : Text) (s : SymbolState F) (promoted : List Text)
      → (assign_one settings top_n base s promoted).state.status ≡ s.status
  unfolding assign_one
  assign_one_status base s promoted = ground arith

  -- After `_assign_tiers` every trading symbol stands in the tier that is expected of it, given the
  -- configured sets, the ranking and the set of promoted symbols that the call leaves; only ordinary
  -- symbols of these are promoted, and exactly these carry the tag "spike".
  pub assign_tiers-IsPlaced :
      (states : Dict Text (SymbolState F)) (promoted : List Text)
      → Distinct states
      → let (states', promoted', _) = assign_tiers settings top_n states promoted in
        All (IsFrozenOrPlaced promoted') states'
  unfolding assign_tiers
  assign_tiers-IsPlaced [] promoted d = tt
  assign_tiers-IsPlaced ((base, s) ∷ states) promoted (fresh, d) =
      let one = assign_one settings top_n base s promoted in
      let same = assign_tiers_others base states one.promoted fresh in
      let rest = (assign_tiers settings top_n states one.promoted).1 in
      let kept = assign_one_status base s promoted in
      let first : IsFrozenOrPlaced rest (base, one.state) = elim (Status-cases s.status) [
        | inl trades ↦ inr (
            IsPlaced-same one.promoted rest base one.state (sym same)
              (assign_one-IsPlaced base s promoted trades))
        | inr froze ↦ inl (kept ∙ froze)
      ] in
      (first, assign_tiers-IsPlaced states one.promoted d)
