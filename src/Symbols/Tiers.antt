-- ===== src/Symbols/Tiers.antt =====
-- Tier assignment (src/orvixa/symbols/manager.py: `_assign_tiers`, `_base_tier`,
-- `_apply_spike_logic`, `_is_spiking`).
pub mod Placed
pub mod Grace
pub mod Changes
mod Tests
use orvixa.Prelude.{
  ◌++◌, ◌+◌, leb, ◌||◌, ◌∷◌, ◌==◌, not, [], ℕ, Bool, true, false, ◌&&◌, List, Option, none, some,
  ltb, if◌then◌else◌,
}
use orvixa.Prelude.Eq.{Text, text_eq}
use orvixa.Prelude.Dict.{Dict}
use orvixa.Prelude.Sets.{include, discard, member}
use orvixa.Prelude.Float.{Float, nought, of_ℕ}
use orvixa.Symbols.Models.{
  ranking, demote_spike, Reason, TierChange, Tag, Klass, core, alt, meme, Status, trading, frozen,
  tier_core, tier_watch, tier_rest, SymbolState, Settings,
}

-- `!=` between classes.
unfoldable pub same_class : Klass → Klass → Bool
same_class core core = true
same_class alt alt = true
same_class meme meme = true
same_class _ _ = false

abbrev pub is_frozen : Status → Bool
is_frozen frozen = true
is_frozen trading = false

-- The tier, the class and `calm_cycles` of a symbol and the set `_spike_promoted`, as
-- `_apply_spike_logic` leaves them.
pub record Spiked : Type 0 where
  pub tier : ℕ
  pub class_ : Klass
  pub promoted : List Text
  pub calm_cycles : ℕ

module _ {ℓ} {F : Type ℓ} ⦃f : Float F⦄ (settings : Settings F) where
  volume_spikes : F → Option F → Bool
  volume_spikes now none = false
  volume_spikes now (some before) =
      f.lt nought before && f.le (f.mul before settings.promotion_volume_multiplier) now

  count_spikes : ℕ → Option ℕ → Bool
  count_spikes now none = false
  count_spikes now (some before) =
      ltb 0 before && f.le (f.mul (of_ℕ before) settings.promotion_volume_multiplier) (of_ℕ now)

  unfoldable pub is_spiking : SymbolState F → Bool
  unfolding volume_spikes count_spikes
  is_spiking s =
      if volume_spikes s.quote_volume s.prev_quote_volume
      then true
      else if count_spikes s.count s.prev_count
      then true
      else f.le settings.promotion_volatility_pct (f.abs s.price_change_pct)

  unfoldable pub base_tier : Text → SymbolState F → List Text → ℕ × Klass
  base_tier base s top_n =
      if member base settings.core_set
      then (tier_core, core)
      else if member base settings.meme_set
      then (tier_watch, meme)
      else if member s.pair top_n
      then (tier_watch, alt)
      else (tier_rest, alt)

  -- `_apply_spike_logic`
  unfoldable pub apply_spike_logic : Text → SymbolState F → List Text → ℕ × Klass → Spiked
  unfolding is_spiking
  apply_spike_logic base s promoted (base_tier, class_) =
      if not (base_tier == tier_rest)
      then record {
        tier = base_tier;
        class_ = class_;
        promoted = discard base promoted;
        calm_cycles = s.calm_cycles;
      }
      else if is_spiking s
      then record {
        tier = tier_watch;
        class_ = alt;
        promoted = include base promoted;
        calm_cycles = 0;
      }
      else if member base promoted
      then (if leb settings.demotion_grace_cycles (s.calm_cycles + 1)
          then record {
            tier = tier_rest;
            class_ = class_;
            promoted = discard base promoted;
            calm_cycles = 0;
          }
          else record {
            tier = tier_watch;
            class_ = alt;
            promoted = promoted;
            calm_cycles = s.calm_cycles + 1;
          })
      else record {
        tier = tier_rest;
        class_ = class_;
        promoted = promoted;
        calm_cycles = s.calm_cycles;
      }

-- The reason of a change from a tier to a tier, for a base tier.
unfoldable pub reason_of : ℕ → ℕ → ℕ → Reason
reason_of old_tier tier base_tier =
    if (tier == tier_watch) && (base_tier == tier_rest)
    then Reason.spike
    else if (old_tier == tier_watch) && (tier == tier_rest)
    then demote_spike
    else ranking

-- What one round of the loop of `_assign_tiers` leaves: the state, `_spike_promoted` and the changes
-- that it appends.
pub record Assigned {ℓ} (F : Type ℓ) : Type ℓ where
  pub state : SymbolState F
  pub promoted : List Text
  pub changes : List TierChange

module _ {ℓ} {F : Type ℓ} ⦃f : Float F⦄ (settings : Settings F) where
  tags_of : Text → ℕ → Spiked → List Tag
  tags_of base base_tier out =
      if member base out.promoted && (base_tier == tier_rest)
      then Tag.klass out.class_ ∷ Tag.spike ∷ []
      else Tag.klass out.class_ ∷ []

  changes_of : Text → SymbolState F → ℕ → Spiked → List TierChange
  unfolding same_class reason_of
  changes_of base s base_tier out =
      if not (out.tier == s.tier) || not (same_class out.class_ s.class_)
      then record {
        base = base;
        pair = s.pair;
        from_tier = s.tier;
        to_tier = out.tier;
        reason = reason_of s.tier out.tier base_tier;
      }
        ∷ []
      else []

  unfoldable pub assign_one : List Text → Text → SymbolState F → List Text → Assigned F
  unfolding base_tier apply_spike_logic tags_of changes_of
  assign_one top_n base s promoted =
      let (tier, class_) = base_tier settings base s top_n in
      let out = apply_spike_logic settings base s promoted (tier, class_) in
      if is_frozen s.status
      then record { state = s; promoted = promoted; changes = [] }
      else record {
        state = record s {
          tier = out.tier;
          class_ = out.class_;
          tags = tags_of base tier out;
          calm_cycles = out.calm_cycles;
        };
        promoted = out.promoted;
        changes = changes_of base s tier out;
      }

  -- The whole loop: the states, `_spike_promoted` and the changes in order.
  unfoldable pub assign_tiers :
      List Text
      → Dict Text (SymbolState F)
      → List Text
      → Dict Text (SymbolState F) × List Text × List TierChange
  assign_tiers top_n [] promoted = ([], promoted, [])
  assign_tiers top_n ((base, s) ∷ states) promoted =
      let one = assign_one top_n base s promoted in
      let (states', promoted', changes) = assign_tiers top_n states one.promoted in
      ((base, one.state) ∷ states', promoted', one.changes ++ changes)
