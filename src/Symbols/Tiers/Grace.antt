-- ===== src/Symbols/Tiers/Grace.antt =====
-- How long a spike keeps a symbol on the watchlist.
use orvixa.Prelude.{
  ap, ◌∙◌, ℕ, Option, some, le→leb, ◌+◌, ◌<◌, ◌≡◌, true, false, List, [], ◌∷◌, leb, arith, length,
}
use orvixa.Prelude.Eq.{Text, text_eq}
use orvixa.Prelude.Sets.{member}
use orvixa.Prelude.Float.{Float}
use orvixa.Symbols.Models.{trading, tier_watch, tier_rest, TickerStats, SymbolState, Settings}
use orvixa.Symbols.Tiers.{base_tier, apply_spike_logic, is_spiking, assign_one, Assigned}
use orvixa.Symbols.Listings.{listed_state, with_stats}
use orvixa.Symbols.Tiers.Placed.{is_ordinary, member-discard_self}

-- What a refresh brings for a listed symbol: its pair, its ticker, its rank and the first pairs by volume.
pub record Cycle {ℓ} (F : Type ℓ) : Type ℓ where
  pub pair : Text
  pub stats : Option (TickerStats F)
  pub rank : Option ℕ
  pub top_n : List Text

module _ {ℓ} {F : Type ℓ} ⦃f : Float F⦄ (settings : Settings F) (base : Text) where
  -- The state that `_sync_listings` leaves, of one that is known.
  unfoldable pub relisted : Cycle F → SymbolState F → SymbolState F
  unfolding listed_state with_stats
  relisted c s =
      let listed = listed_state base c.pair (some s) in
      record (with_stats c.stats (record listed { pair = c.pair })) { rank = c.rank }

  relisted-trading :
      (c : Cycle F) (s : SymbolState F)
      → ((relisted c s).status ≡ trading)
        × ((relisted c s).calm_cycles ≡ s.calm_cycles)
        × ((relisted c s).pair ≡ c.pair)
  unfolding relisted listed_state with_stats
  relisted-trading c s = ground arith

  -- The listing and the assignment of the tier, of one refresh.
  abbrev pub refresh : Cycle F → SymbolState F → List Text → Assigned F
  refresh c s promoted = assign_one settings c.top_n base (relisted c s) promoted

  -- The symbol is ordinary, and its new figures are calm against the ones of the refresh before.
  pub record IsCalm (c : Cycle F) (s : SymbolState F) : Type ℓ where
    pub ordinary : is_ordinary settings c.top_n base c.pair ≡ true
    pub calm : is_spiking settings (relisted c s) ≡ false

  -- The refreshes in turn.
  unfoldable pub rounds : List (Cycle F) → SymbolState F → List Text → SymbolState F × List Text
  rounds [] s promoted = (s, promoted)
  rounds (c ∷ cs) s promoted = let one = refresh c s promoted in rounds cs one.state one.promoted

  -- Each refresh is calm for the state that the ones before it leave.
  unfoldable pub AreCalm : List (Cycle F) → SymbolState F → List Text → Type ℓ
  AreCalm [] s promoted = Unit
  AreCalm (c ∷ cs) s promoted =
      let one = refresh c s promoted in IsCalm c s × AreCalm cs one.state one.promoted

  assigned_stays :
      (top_n : List Text) (t : SymbolState F) (promoted : List Text)
      → t.status ≡ trading
      → is_ordinary settings top_n base t.pair ≡ true
      → is_spiking settings t ≡ false
      → member base promoted ≡ true
      → leb settings.demotion_grace_cycles (t.calm_cycles + 1) ≡ false
      → let one = assign_one settings top_n base t promoted in
        (one.state.tier ≡ tier_watch)
        × (one.state.calm_cycles ≡ t.calm_cycles + 1)
        × (member base one.promoted ≡ true)
  unfolding assign_one base_tier apply_spike_logic is_ordinary
  assigned_stays top_n t promoted trades ordinary calm m g = ground arith

  assigned_ends :
      (top_n : List Text) (t : SymbolState F) (promoted : List Text)
      → t.status ≡ trading
      → is_ordinary settings top_n base t.pair ≡ true
      → is_spiking settings t ≡ false
      → member base promoted ≡ true
      → leb settings.demotion_grace_cycles (t.calm_cycles + 1) ≡ true
      → let one = assign_one settings top_n base t promoted in
        (one.state.tier ≡ tier_rest) × (member base one.promoted ≡ false)
  unfolding assign_one base_tier apply_spike_logic is_ordinary
  assigned_ends top_n t promoted trades ordinary calm m g =
      ground (arith, member-discard_self settings top_n base promoted)

  calm_round_stays :
      (c : Cycle F) (s : SymbolState F) (promoted : List Text)
      → IsCalm c s
      → member base promoted ≡ true
      → leb settings.demotion_grace_cycles (s.calm_cycles + 1) ≡ false
      → let one = refresh c s promoted in
        (one.state.tier ≡ tier_watch)
        × (one.state.calm_cycles ≡ s.calm_cycles + 1)
        × (member base one.promoted ≡ true)
  calm_round_stays c s promoted h m g =
      let (trades, count, pair) = relisted-trading c s in
      let (tier, calm, there) =
        assigned_stays c.top_n (relisted c s) promoted trades (rw pair h.ordinary) h.calm m
          (rw count g) in
      (tier, calm ∙ ap (λ n. n + 1) count, there)

  calm_round_ends :
      (c : Cycle F) (s : SymbolState F) (promoted : List Text)
      → IsCalm c s
      → member base promoted ≡ true
      → leb settings.demotion_grace_cycles (s.calm_cycles + 1) ≡ true
      → let one = refresh c s promoted in
        (one.state.tier ≡ tier_rest) × (member base one.promoted ≡ false)
  calm_round_ends c s promoted h m g =
      let (trades, count, pair) = relisted-trading c s in
      assigned_ends c.top_n (relisted c s) promoted trades (rw pair h.ordinary) h.calm m
        (rw count g)

  rounds_stay :
      (cs : List (Cycle F)) (s : SymbolState F) (promoted : List Text)
      → AreCalm cs s promoted
      → member base promoted ≡ true
      → s.calm_cycles + length cs < settings.demotion_grace_cycles
      → let (s', promoted') = rounds cs s promoted in
        (member base promoted' ≡ true)
        × (s'.calm_cycles ≡ s.calm_cycles + length cs)
        × (s.tier ≡ tier_watch → s'.tier ≡ tier_watch)
  unfolding rounds AreCalm
  rounds_stay [] s promoted h m g = (m, omega arith, λ t. t)
  rounds_stay (c ∷ cs) s promoted (h, hs) m g =
      let one = refresh c s promoted in
      let (t, k, m') = calm_round_stays c s promoted h m (ground arith) in
      let (m'', k', t') = rounds_stay cs one.state one.promoted hs m' (omega arith) in
      (m'', omega arith, λ _. t' t)

  -- A promoted symbol on the watchlist whose count of calm cycles is 0, listed and ordinary in every
  -- refresh: where the figures of each refresh are calm against those of the one before, it stays
  -- promoted and on the watchlist through fewer refreshes in a row than `demotion_grace_cycles`, and the
  -- refresh that reaches this number demotes it.
  pub demotion_after_grace :
      (cs : List (Cycle F)) (c : Cycle F) (s : SymbolState F) (promoted : List Text)
      → AreCalm cs s promoted
      → IsCalm c (rounds cs s promoted).0
      → member base promoted ≡ true
      → s.tier ≡ tier_watch
      → s.calm_cycles ≡ 0
      → length cs + 1 ≡ settings.demotion_grace_cycles
      → let (s', promoted') = rounds cs s promoted in
        let last = refresh c s' promoted' in
        (s'.tier ≡ tier_watch)
        × (member base promoted' ≡ true)
        × (last.state.tier ≡ tier_rest)
        × (member base last.promoted ≡ false)
  demotion_after_grace cs c s promoted hs h m w z g =
      let (s', promoted') = rounds cs s promoted in
      let (m', k, t) = rounds_stay cs s promoted hs m (omega arith) in
      let (t', n) = calm_round_ends c s' promoted' h m' (le→leb _ _ (omega arith)) in
      (t w, m', t', n)
