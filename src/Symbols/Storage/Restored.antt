-- ===== src/Symbols/Storage/Restored.antt =====
-- What a restart of the symbol manager carries over.
use orvixa.Prelude.{
  ◌++◌, ◌↔◌, subst, ap, ◌&&◌, ◌||◌, sym, ◌∙◌, ◌≡◌, refl, Bool, true, false, List, [], ◌∷◌, map,
  Option, none, some, All, arith, Bool-cases, inl, inr, if◌then◌else◌,
}
use orvixa.Prelude.Eq.{Text, text_eq, text_beq, text_beq_iff}
use orvixa.Prelude.Dict.{Dict, Distinct, lookup, insert, lookup-insert, lookup-empty}
use orvixa.Prelude.Sets.{include, member, member-include, member_none}
use orvixa.Prelude.Float.{Float}
use orvixa.Symbols.Models.{SymbolState, new_state, Tag, klass, spike}
use orvixa.Symbols.Storage.{SymbolRow, carries_spike, row_of_state, restored, load_existing}

within : (before after : List Tag) → carries_spike (before ++ spike ∷ after) ≡ true
unfolding carries_spike
within [] after = refl
within (klass _ ∷ before) after = within before after
within (spike ∷ before) after = refl

there :
    (tags : List Tag)
    → carries_spike tags ≡ true
    → (before : List Tag) × (after : List Tag) × (tags ≡ before ++ spike ∷ after)
unfolding carries_spike
there [] h = absurd (cc)
there (spike ∷ tags) h = ([], tags, refl)
there (klass c ∷ tags) h =
    let (before, after, e) = there tags h in (klass c ∷ before, after, ap (λ t. klass c ∷ t) e)

carries_spike-split :
    (tags : List Tag)
    → (carries_spike tags ≡ true)
      ↔ (before : List Tag) × (after : List Tag) × (tags ≡ before ++ spike ∷ after)
carries_spike-split tags = (
  there tags,
  λ h.
      let (before, after, e) = h in
      subst (λ t. carries_spike t ≡ true) (sym e) (within before after),
)

module _ {ℓ} {F : Type ℓ} ⦃f : Float F⦄ where
  -- Every state stands under its own base.
  abbrev pub IsKeyed : Text × SymbolState F → Type 0
  IsKeyed entry = entry.0 ≡ entry.1.base

  abbrev pub rows_of : Dict Text (SymbolState F) → List SymbolRow
  rows_of states = map (λ entry. row_of_state entry.1) states

  -- The state that stands for one that was stored, or else for what was there before.
  pub state_or : Option (SymbolState F) → Option (SymbolState F) → Option (SymbolState F)
  state_or none before = before
  state_or (some s) before = some (restored (row_of_state s))

  pub spike_or : Option (SymbolState F) → Bool → Bool
  spike_or none before = before
  spike_or (some s) before = if carries_spike s.tags then true else before

  load_lookup :
      (states acc : Dict Text (SymbolState F)) (promoted : List Text) (b : Text)
      → Distinct states
      → All IsKeyed states
      → lookup b (load_existing (rows_of states) acc promoted).0
        ≡ state_or (lookup b states) (lookup b acc)
  unfolding load_existing row_of_state lookup state_or
  load_lookup [] acc promoted b d k = refl
  load_lookup ((key, s) ∷ states) acc promoted b d k =
      let more = if carries_spike s.tags then include s.base promoted else promoted in
      let rest =
        load_lookup states (insert s.base (restored (row_of_state s)) acc) more b d.1 k.1 in
      let put = lookup-insert s.base b (restored (row_of_state s)) acc in
      elim (Bool-cases (text_beq key b)) [
        | inl same ↦
            let here : key ≡ b = (text_beq_iff key b).0 same in
            let gone = subst (λ x. lookup x states ≡ none) here d.0 in
            let found : text_beq s.base b ≡ true = (text_beq_iff s.base b).1 (sym k.0 ∙ here) in
            rest ∙ rw gone (put ∙ rw found (rw same refl))
        | inr other ↦
            let missed : text_beq s.base b ≡ false = subst (λ x. text_beq x b ≡ false) k.0 other in
            rest ∙ rw put (rw missed (rw other refl))
      ]

  load_promoted :
      (states acc : Dict Text (SymbolState F)) (promoted : List Text) (b : Text)
      → Distinct states
      → All IsKeyed states
      → member b (load_existing (rows_of states) acc promoted).1
        ≡ spike_or (lookup b states) (member b promoted)
  unfolding load_existing row_of_state lookup spike_or
  load_promoted [] acc promoted b d k = refl
  load_promoted ((key, s) ∷ states) acc promoted b d k =
      let more = if carries_spike s.tags then include s.base promoted else promoted in
      let rest =
        load_promoted states (insert s.base (restored (row_of_state s)) acc) more b d.1 k.1 in
      let put : member b more ≡ (carries_spike s.tags && text_beq s.base b || member b promoted) =
        ground (arith, member-include s.base b promoted) in
      elim (Bool-cases (text_beq key b)) [
        | inl same ↦
            let here : key ≡ b = (text_beq_iff key b).0 same in
            let gone = subst (λ x. lookup x states ≡ none) here d.0 in
            let found : text_beq s.base b ≡ true = (text_beq_iff s.base b).1 (sym k.0 ∙ here) in
            rest ∙ rw gone (put ∙ rw found (rw same (ground arith)))
        | inr other ↦
            let missed : text_beq s.base b ≡ false = subst (λ x. text_beq x b ≡ false) k.0 other in
            rest ∙ rw put (rw missed (rw other (ground arith)))
      ]

  -- A state after a restart against the one before: its row is kept, and the calm cycles and the
  -- previous figures are as for a new symbol.
  pub record IsKept (s t : SymbolState F) : Type ℓ where
    pub base : t.base ≡ s.base
    pub pair : t.pair ≡ s.pair
    pub tier : t.tier ≡ s.tier
    pub class_ : t.class_ ≡ s.class_
    pub status : t.status ≡ s.status
    pub tags : t.tags ≡ s.tags
    pub rank : t.rank ≡ s.rank
    pub calm_cycles : t.calm_cycles ≡ 0
    pub prev_quote_volume : t.prev_quote_volume ≡ none
    pub prev_count : t.prev_count ≡ none

  -- What stands for a symbol after the restart against what stood for it before.
  pub Returns : Option (SymbolState F) → Option (SymbolState F) → Type ℓ
  Returns none after = after ≡ none
  Returns (some s) after = (t : SymbolState F) × (after ≡ some t) × IsKept s t

  state_or-Returns : (o after : Option (SymbolState F)) → after ≡ state_or o none → Returns o after
  unfolding Returns state_or restored row_of_state new_state
  state_or-Returns none after e = e
  state_or-Returns (some s) after e = (
    restored (row_of_state s),
    e,
    record {
      base = refl;
      pair = refl;
      tier = refl;
      class_ = refl;
      status = refl;
      tags = refl;
      rank = refl;
      calm_cycles = refl;
      prev_quote_volume = refl;
      prev_count = refl;
    },
  )

  -- The tags of the symbol, where it was known, have "spike" among them.
  pub HadSpike : Option (SymbolState F) → Type 0
  HadSpike none = ⊥
  HadSpike (some s) = (before : List Tag) × (after : List Tag) × (s.tags ≡ before ++ spike ∷ after)

  spike_or-HadSpike :
      (o : Option (SymbolState F)) (found : Bool)
      → found ≡ spike_or o false
      → (found ≡ true) ↔ HadSpike o
  unfolding HadSpike spike_or
  spike_or-HadSpike none found e = (λ h. ground arith, λ h. absurd h)
  spike_or-HadSpike (some s) found e =
      let (to, from) = carries_spike-split s.tags in
      (λ h. to (ground arith), λ h. let c = from h in ground arith)

  -- A restart after the states were stored: where every state stands under its own base, and once, a
  -- symbol is known again exactly if it was; it has its base, pair, tier, class, status, tags and rank
  -- again, no calm cycles and no previous figures; and it is among the promoted symbols exactly if it
  -- was known with "spike" among its tags.
  pub load_existing-row_of_state :
      (states : Dict Text (SymbolState F)) (b : Text)
      → Distinct states
      → All IsKeyed states
      → let (states', promoted') = load_existing {F = F} (rows_of states) [] [] in
        Returns (lookup b states) (lookup b states')
        × ((member b promoted' ≡ true) ↔ HadSpike (lookup b states))
  load_existing-row_of_state states b d k = (
    state_or-Returns (lookup b states) _
        (load_lookup states [] [] b d k ∙ ap (state_or (lookup b states)) (lookup-empty b)),
    spike_or-HadSpike (lookup b states) _
        (load_promoted states [] [] b d k ∙ ap (spike_or (lookup b states)) (member_none b)),
  )
