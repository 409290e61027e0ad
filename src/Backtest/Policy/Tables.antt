-- ===== src/Backtest/Policy/Tables.antt =====
-- The table of decisions against the table of cells.
use orvixa.Prelude.{ℕ, ◌≡◌, refl, [], ◌∷◌, Option, some, Bool-cases, inl, inr, arith}
use orvixa.Prelude.Eq.{Text, text_eq, pair_eq, Eq}
use orvixa.Prelude.Dict.{Dict, lookup}
use orvixa.Prelude.Result.{Result, ok, Result-cases}
use orvixa.Prelude.Float.{Float}
use orvixa.Backtest.Policy.{
  RegimeCell, PolicyDecision, decide, Bucket, CellsByType, global_edge_of, fill,
  compute_policy_decisions,
}

module _ {κ ι ο} {K : Type κ} {V : Type ι} {W : Type ο} ⦃e : Eq K⦄ (g : K → V → Result W) where
  -- An entry of the filled dict is made of the entry at its key.
  pub fill-entry :
      (d : Dict K V) (out : Dict K W) (k : K) (w : W)
      → fill g d ≡ ok out
      → lookup k out ≡ some w
      → (v : V) × (lookup k d ≡ some v) × (g k v ≡ ok w)
  unfolding fill lookup
  fill-entry [] out k w h l = absurd (ground arith)
  fill-entry ((j, v) ∷ d) out k w h l = elim (Result-cases (g j v)) [
    | inr (x, q) ↦ absurd (ground arith)
    | inl (first, q) ↦ elim (Result-cases (fill g d)) [
      | inr (x, r) ↦ absurd (ground arith)
      | inl (rest, r) ↦
          let whole : out ≡ (j, first) ∷ rest = ground arith in
          elim (Bool-cases (e.beq j k)) [
            | inl same ↦ (v, rw same refl, ground (arith, e.beq_iff j k))
            | inr other ↦
                let (u, found, made) = fill-entry d rest k w r (ground arith) in
                (u, rw other found, made)
          ]
    ]
  ]

module _ {ℓ} {F : Type ℓ} ⦃f : Float F⦄ (edges : Dict Text (Dict ℕ (Option F))) (horizon : ℕ) where
  -- Every decision in the table that `compute_policy_decisions` returns is the one of `_decide` on the
  -- cell of the same symbol, bucket and signal type, with the global edge of that type.
  pub compute_policy_decisions-decide :
      (regime_metrics : Dict Text (Dict Bucket (CellsByType F)))
      (out : Dict Text (Dict Bucket (Dict Text (PolicyDecision F)))) (symbol : Text)
      (bucket : Bucket) (signal : Text) (buckets : Dict Bucket (Dict Text (PolicyDecision F)))
      (types : Dict Text (PolicyDecision F)) (d : PolicyDecision F)
      → compute_policy_decisions edges regime_metrics horizon ≡ ok out
      → lookup symbol out ≡ some buckets
      → lookup bucket buckets ≡ some types
      → lookup signal types ≡ some d
      → (by_bucket : Dict Bucket (CellsByType F)) × (cells : CellsByType F) × (cell : RegimeCell F)
        × (lookup symbol regime_metrics ≡ some by_bucket)
        × (lookup bucket by_bucket ≡ some cells)
        × (lookup signal cells ≡ some cell)
        × (decide cell (global_edge_of edges signal horizon) horizon ≡ ok d)
  unfolding compute_policy_decisions
  compute_policy_decisions-decide regime_metrics out symbol bucket signal buckets types d h a b c =
      let (by_bucket, found_a, made_a) = fill-entry _ regime_metrics out symbol buckets h a in
      let (cells, found_b, made_b) = fill-entry _ by_bucket buckets bucket types made_a b in
      let (cell, found_c, made_c) = fill-entry _ cells types signal d made_b c in
      (by_bucket, cells, cell, found_a, found_b, found_c, made_c)
