-- ===== src/Symbols/Ranking/Sorted.antt =====
-- The ranking is a permutation of its input in falling order.
use mathlib.Core.List.{Perm, perm_middle}
use mathlib.Core.List.Perm
use orvixa.Prelude.{inr, inl, List, [], ◌∷◌, ◌++◌, map, append-nil, arith, All, Bool-cases}
use orvixa.Prelude.Float.{Float, IsOrdered, ◌≼◌}
use orvixa.Symbols.Models.{TickerStats}
use orvixa.Symbols.Ranking.{compute_score, place, sort_from, rank_by_score}

module _ {ℓ κ} {F : Type ℓ} ⦃f : Float F⦄ {A : Type κ} where
  -- No score is below one that stands behind it, and none is NaN.
  abbrev pub IsFalling : List (A × F) → Type 0
  IsFalling [] = Unit
  IsFalling (x ∷ []) = x.1 ≼ x.1
  IsFalling (x ∷ y ∷ ys) = (y.1 ≼ x.1) × IsFalling (y ∷ ys)

  perm-place : (x : A × F) (ys : List (A × F)) → Perm (place x ys) (x ∷ ys)
  unfolding place
  perm-place x [] = Perm.refl (x ∷ [])
  perm-place x (y ∷ ys) = elim (Bool-cases (f.lt y.1 x.1)) [
    | inl lower ↦ rw lower (Perm.refl (x ∷ y ∷ ys))
    | inr not_lower ↦ rw not_lower (Perm.trans (Perm.cons y (perm-place x ys)) (Perm.swap x y ys))
  ]

  perm-sort_from : (sorted xs : List (A × F)) → Perm (sort_from sorted xs) (sorted ++ xs)
  unfolding sort_from
  perm-sort_from sorted [] = rw append-nil (Perm.refl sorted)
  perm-sort_from sorted (x ∷ xs) =
      Perm.trans (perm-sort_from (place x sorted) xs) (
        Perm.trans (Perm.append_right xs (perm-place x sorted)) (Perm.symm (perm_middle sorted xs)))

  is_number : (y : A × F) (ys : List (A × F)) → IsFalling (y ∷ ys) → IsOrdered F → y.1 ≼ y.1
  is_number y [] h laws = h
  is_number y (z ∷ ys) h laws = (laws.refl_of_le _ _ h.0).1

  place-IsFalling :
      (x : A × F) (ys : List (A × F))
      → IsOrdered F
      → x.1 ≼ x.1
      → IsFalling ys
      → IsFalling (place x ys)
  unfolding place
  place-IsFalling x [] laws n h = n
  place-IsFalling x (y ∷ []) laws n h =
      ground (arith, laws.lt-eq-not-le y.1 x.1, laws.le_total y.1 x.1)
  place-IsFalling x (y ∷ z ∷ zs) laws n h =
      let num = is_number y (z ∷ zs) h laws in
      ground (
        arith,
        place-IsFalling x (z ∷ zs) laws n h.1,
        laws.lt-eq-not-le y.1 x.1 num n,
        laws.le_total y.1 x.1 num n,
      )

  sort_from-IsFalling :
      (sorted xs : List (A × F))
      → IsOrdered F
      → IsFalling sorted
      → All (λ x. x.1 ≼ x.1) xs
      → IsFalling (sort_from sorted xs)
  unfolding sort_from
  sort_from-IsFalling sorted [] laws h n = h
  sort_from-IsFalling sorted (x ∷ xs) laws h n =
      sort_from-IsFalling (place x sorted) xs laws (place-IsFalling x sorted laws n.0 h) n.1

module _ {ℓ} {F : Type ℓ} ⦃f : Float F⦄ where
  scores_numbers :
      (stats : List (TickerStats F))
      → All (λ s. compute_score s ≼ compute_score s) stats
      → All (λ (x : TickerStats F × F). x.1 ≼ x.1) (map (λ s. (s, compute_score s)) stats)
  scores_numbers [] h = tt
  scores_numbers (s ∷ stats) h = (h.0, scores_numbers stats h.1)

  -- If no score is NaN, the ranking has each of the given symbols with its score, no more and no less,
  -- and no score is followed by a higher one.
  pub rank_by_score_lem :
      (stats : List (TickerStats F))
      → IsOrdered F
      → All (λ s. compute_score s ≼ compute_score s) stats
      → Perm (rank_by_score stats) (map (λ s. (s, compute_score s)) stats)
        × IsFalling (rank_by_score stats)
  unfolding rank_by_score
  rank_by_score_lem stats laws h =
      let scored : List (TickerStats F × F) = map (λ s. (s, compute_score s)) stats in
      (perm-sort_from [] scored, sort_from-IsFalling [] scored laws tt (scores_numbers stats h))
