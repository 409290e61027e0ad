-- ===== src/Backtest/Policy/Decided.antt =====
-- What a policy decision rests on, where the label of the cell is the one of `_classify_validity` for a
-- fraction of clustered signals. The cell has that fraction rounded to 4 places.
use orvixa.Prelude.{
  ap, ◌∙◌, sym, inr, inl, ℕ, ◌≡◌, refl, Bool, true, false, ◌&&◌, ◌||◌, Option, none, some, arith,
  if◌then◌else◌,
}
use orvixa.Prelude.Eq.{ℕ_eq}
use orvixa.Prelude.Dict.{lookup}
use orvixa.Prelude.Result.{Result-cases, ok, ◌>>=◌}
use orvixa.Prelude.Float.{Float, nought, of_ℕ}
use orvixa.Backtest.Policy.{
  Validity, insufficient_data, diagnostic_only, regime_conditional_candidate, other, Decision,
  allow, reduce, PolicyReason, reason_edge_ci_spans_zero, reason_clustered, sign, same_sign,
  spans_zero, is_clustered, classify_validity, RegimeCell, PolicyDecision, ci_spans_zero,
  decide_diagnostic, decide_candidate, decide_label, decide,
}

module _ {ℓ} {F : Type ℓ} ⦃f : Float F⦄ where
  -- The figures of a cell at a horizon, and its label there, computed from them and from the fraction
  -- of clustered signals before it was rounded.
  pub record IsClassified (cell : RegimeCell F) (horizon : ℕ) (fraction : F)
      (neff low high edge : Option F) : Type ℓ where
    pub neff_there : lookup horizon cell.neff ≡ some neff
    pub low_there : lookup horizon cell.edge_ci_low ≡ some low
    pub high_there : lookup horizon cell.edge_ci_high ≡ some high
    pub edge_there : lookup horizon cell.edge ≡ some edge
    pub labelled :
        lookup horizon cell.classification ≡ some (classify_validity neff low high fraction)

  -- What `_decide` returns for a decision and a reason on such a cell.
  returned_for :
      RegimeCell F
      → Option F
      → (fraction : F) (neff low high edge : Option F) → Decision × PolicyReason
      → PolicyDecision F
  returned_for cell global fraction neff low high edge decided = record {
    decision = decided.0;
    reason = decided.1;
    regime_classification = classify_validity neff low high fraction;
    regime_edge = edge;
    global_edge = global;
    sample_size = cell.sample_size;
    neff = neff;
  }

  pub both_signed : F → F → Bool
  both_signed r g = (f.lt nought r && f.lt nought g) || (f.lt r nought && f.lt g nought)

  -- An edge is a number, or there is no number to compare it with.
  candidate_allows :
      (regime global : Option F) {reason : PolicyReason}
      → decide_candidate regime global ≡ ok (allow, reason)
      → (r : F) × (g : F) × (regime ≡ some r) × (global ≡ some g) × (both_signed r g ≡ true)
  unfolding decide_candidate sign same_sign both_signed
  candidate_allows none none e = ground arith
  candidate_allows (some r) none e = ground arith
  candidate_allows none (some g) e = ground arith
  candidate_allows (some r) (some g) e = (r, g, refl, refl, ground arith)

  -- The only label under which a decision can be to allow, and what it says.
  candidate_supported :
      (neff low high : Option F) (clustered_fraction : F)
      → classify_validity neff low high clustered_fraction ≡ regime_conditional_candidate
      → (n : F) × (l : F) × (u : F) × (neff ≡ some n)
        × (low ≡ some l)
        × (high ≡ some u)
        × (f.lt n (of_ℕ 5) ≡ false)
        × (spans_zero l u ≡ false)
        × (is_clustered clustered_fraction ≡ false)
  unfolding classify_validity
  candidate_supported none low high c e = ground arith
  candidate_supported (some n) none high c e = ground arith
  candidate_supported (some n) (some l) none c e = ground arith
  candidate_supported (some n) (some l) (some u) c e =
      (n, l, u, refl, refl, refl, ground arith, ground arith, ground arith)

  label_of_allow :
      (label : Validity) (cell : RegimeCell F) (edge global : Option F) (horizon : ℕ)
      (reason : PolicyReason)
      → decide_label label cell edge global horizon ≡ ok (allow, reason)
      → (label ≡ regime_conditional_candidate) × (decide_candidate edge global ≡ ok (allow, reason))
  unfolding decide_label decide_diagnostic
  label_of_allow insufficient_data cell edge global horizon reason e = ground arith
  label_of_allow diagnostic_only cell edge global horizon reason e = ground arith
  label_of_allow regime_conditional_candidate cell edge global horizon reason e = (refl, e)
  label_of_allow other cell edge global horizon reason e = ground arith

  decide-label :
      (cell : RegimeCell F) (global : Option F) (horizon : ℕ) {fraction : F}
      {neff low high edge : Option F}
      → IsClassified cell horizon fraction neff low high edge
      → decide cell global horizon ≡ (
          decide_label (classify_validity neff low high fraction) cell edge global horizon
          >>= λ decided. ok (returned_for cell global fraction neff low high edge decided))
  unfolding decide returned_for
  decide-label cell global horizon {fraction} {neff} {low} {high} {edge} c =
      rw c.labelled (rw c.edge_there (rw c.neff_there refl))

  -- A decision to allow a signal: there are at least 5 effective samples, the interval of the edge
  -- excludes zero, at most half the signals are clustered, and the edge in the regime and the global
  -- edge are both positive or both negative. The label is the one that `_classify_validity` gives.
  pub decide_allow_lem :
      (cell : RegimeCell F) (global : Option F) (horizon : ℕ) {fraction : F}
      {neff low high edge : Option F} {d : PolicyDecision F}
      → IsClassified cell horizon fraction neff low high edge
      → decide cell global horizon ≡ ok d
      → d.decision ≡ allow
      → (n : F) × (l : F) × (u : F) × (r : F) × (g : F) × (neff ≡ some n)
        × (low ≡ some l)
        × (high ≡ some u)
        × (edge ≡ some r)
        × (global ≡ some g)
        × (f.lt n (of_ℕ 5) ≡ false)
        × (spans_zero l u ≡ false)
        × (is_clustered fraction ≡ false)
        × (both_signed r g ≡ true)
  decide_allow_lem cell global horizon {fraction} {neff} {low} {high} {edge} {d} c e a =
      let label = classify_validity neff low high fraction in
      let eq = sym (decide-label cell global horizon c) ∙ e in
      elim (Result-cases (decide_label label cell edge global horizon)) [
        | inr (err, q) ↦ absurd (ground arith)
        | inl (decided, q) ↦
            let same : decided ≡ (allow, decided.1) = unfold returned_for in ground arith in
            let (is_candidate, signs) =
              label_of_allow label cell edge global horizon decided.1 (q ∙ ap ok same) in
            let (n, l, u, hn, hl, hu, e0, e1, e2) =
              candidate_supported neff low high fraction is_candidate in
            let (r, g, hr, hg, e3) = candidate_allows edge global signs in
            (n, l, u, r, g, hn, hl, hu, hr, hg, e0, e1, e2, e3)
      ]

  -- The reason of the branch for "diagnostic_only", from the fraction in the cell.
  pub reason_for : F → F → F → PolicyReason
  reason_for low high stored =
      if spans_zero low high
      then reason_edge_ci_spans_zero
      else if is_clustered stored
      then reason_clustered
      else reason_edge_ci_spans_zero

  diagnostic_reason :
      (neff low high : Option F) (fraction stored : F)
      → classify_validity neff low high fraction ≡ diagnostic_only
      → (l : F) × (u : F) × (low ≡ some l)
        × (high ≡ some u)
        × (decide_diagnostic low high stored ≡ (reduce, reason_for l u stored))
        × ((spans_zero l u || is_clustered fraction) ≡ true)
  unfolding classify_validity decide_diagnostic ci_spans_zero reason_for
  diagnostic_reason none low high x y e = ground arith
  diagnostic_reason (some n) none high x y e = ground arith
  diagnostic_reason (some n) (some l) none x y e = ground arith
  diagnostic_reason (some n) (some l) (some u) x y e =
      (l, u, refl, refl, ground arith, ground arith)

  -- On a cell that is labelled "diagnostic_only" by `_classify_validity` the decision is made and is to
  -- reduce; the interval of the edge includes zero, or more than half the signals are clustered; and the
  -- reason is the clustering exactly if the interval excludes zero and the rounded fraction in the cell
  -- is above a half as well, or else the interval.
  pub decide_diagnostic_lem :
      (cell : RegimeCell F) (global : Option F) (horizon : ℕ) {fraction : F}
      {neff low high edge : Option F}
      → IsClassified cell horizon fraction neff low high edge
      → classify_validity neff low high fraction ≡ diagnostic_only
      → (l : F) × (u : F) × (d : PolicyDecision F) × (low ≡ some l)
        × (high ≡ some u)
        × (decide cell global horizon ≡ ok d)
        × (d.decision ≡ reduce)
        × (d.reason ≡ reason_for l u cell.clustered_fraction)
        × ((spans_zero l u || is_clustered fraction) ≡ true)
  unfolding returned_for decide_label
  decide_diagnostic_lem cell global horizon {fraction} {neff} {low} {high} {edge} c label =
      let (l, u, hl, hu, reason, either) =
        diagnostic_reason neff low high fraction cell.clustered_fraction label in
      let decided = decide_diagnostic low high cell.clustered_fraction in
      (
        l,
        u,
        returned_for cell global fraction neff low high edge decided,
        hl,
        hu,
        decide-label cell global horizon c ∙ rw label (rw c.low_there (rw c.high_there refl)),
        ground arith,
        ground arith,
        either,
      )
