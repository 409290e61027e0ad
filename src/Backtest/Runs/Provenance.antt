-- ===== src/Backtest/Runs/Provenance.antt =====
-- The provenance of the data and the mode of a run.
use orvixa.Prelude.{
  subst, ◌≡◌, sym, refl, Bool, true, false, List, [], ◌∷◌, Bool-cases, inl, inr, arith,
}
use orvixa.Prelude.Eq.{Text, text_eq, text_beq, text_beq_iff, codes}
use orvixa.Prelude.Dict.{Dict, get_or}
use orvixa.Prelude.Sets.{member}
use orvixa.Prelude.Result.{ok, raised, value_error, ok-bind}
use orvixa.Prelude.Float.{Float}
use orvixa.Analytics.Engine.{EngineSettings}
use orvixa.Backtest.Bootstrap.{Random}
use orvixa.Backtest.Metrics.{Plan}
use orvixa.Backtest.Replay.{
  Source, DatasetType, real, synthetic, provenance, tags_by_base, classify_dataset,
}
use orvixa.Backtest.Runs.{
  Validation, edge_evaluation, is_valid_mode, is_refused, validated, run_signal_validation,
}

-- `SYNTHETIC_TAG in tags_by_base.get(base, [])`, for the rows of `list_all`.
abbrev pub is_tagged : List (Text × List Text) → Text → Bool
is_tagged rows base = member (codes "synthetic_data") (get_or base [] (tags_by_base rows []))

abbrev has_tag : Dict Text (List Text) → Text → Bool
has_tag tags base = member (codes "synthetic_data") (get_or base [] tags)

provenance-real :
    (tags : Dict Text (List Text)) (symbols : List Text) (base : Text)
    → provenance tags symbols ≡ real
    → member base symbols ≡ true
    → has_tag tags base ≡ false
unfolding provenance member
provenance-real tags [] base e m = ground arith
provenance-real tags (s ∷ symbols) base e m = elim (Bool-cases (has_tag tags s)) [
  | inl tagged ↦ absurd (ground arith)
  | inr untagged ↦ elim (Bool-cases (text_beq s base)) [
    | inl same ↦ subst (λ t. has_tag tags t ≡ false) ((text_beq_iff s base).0 same) untagged
    | inr other ↦ provenance-real tags symbols base (ground arith) (ground arith)
  ]
]

provenance-synthetic :
    (tags : Dict Text (List Text)) (symbols : List Text) (base : Text)
    → has_tag tags base ≡ true
    → member base symbols ≡ true
    → provenance tags symbols ≡ synthetic
unfolding provenance member
provenance-synthetic tags [] base t m = ground arith
provenance-synthetic tags (s ∷ symbols) base t m = elim (Bool-cases (text_beq s base)) [
  | inl same ↦
      let tagged = subst (λ t. has_tag tags t ≡ true) (sym ((text_beq_iff s base).0 same)) t in
      ground arith
  | inr other ↦ let found = provenance-synthetic tags symbols base t (ground arith) in ground arith
]

module _ {ℓ} {F : Type ℓ} ⦃f : Float F⦄ {S : Type 0} (rng : Random F S)
    (settings : EngineSettings F) (source : Source F) (plan : Plan) (interval : Text) where
  only_real :
      (symbols : List Text) (d : DatasetType) {v : Validation F}
      → elim (is_refused d edge_evaluation) [
        | true ↦ raised value_error
        | false ↦ validated rng settings source plan interval symbols edge_evaluation d
      ]
        ≡ ok v
      → d ≡ real
  unfolding is_refused
  only_real symbols real e = refl
  only_real symbols synthetic e = ground arith

  -- A run in the mode "edge_evaluation" that returns: the database gave its symbols, and none of the
  -- symbols of the run is tagged as synthetic there.
  pub edge_evaluation_real :
      (symbols : List Text) (v : Validation F) (base : Text)
      → run_signal_validation rng settings source plan interval symbols edge_evaluation ≡ ok v
      → member base symbols ≡ true
      → (rows : List (Text × List Text)) × (source.list_all ≡ ok rows)
        × (is_tagged rows base ≡ false)
  unfolding run_signal_validation classify_dataset is_valid_mode is_refused
  edge_evaluation_real symbols v base e m =
      let (d, classified, done) = ok-bind (classify_dataset source symbols) e in
      let (rows, listed, same) = ok-bind source.list_all classified in
      let is_real = only_real symbols d done in
      (rows, listed, provenance-real (tags_by_base rows []) symbols base (ground arith) m)

  -- Where the database gives its symbols, and one of the symbols of the run is tagged as synthetic
  -- there, a run in the mode "edge_evaluation" raises ValueError.
  pub edge_evaluation_refused :
      (symbols : List Text) (rows : List (Text × List Text)) (base : Text)
      → source.list_all ≡ ok rows
      → member base symbols ≡ true
      → is_tagged rows base ≡ true
      → run_signal_validation rng settings source plan interval symbols edge_evaluation
        ≡ raised value_error
  unfolding run_signal_validation classify_dataset is_valid_mode is_refused
  edge_evaluation_refused symbols rows base l m t =
      rw l (rw (provenance-synthetic (tags_by_base rows []) symbols base t m) refl)
