-- ===== src/Symbols/Ranking.antt =====
-- The volume ranking (src/orvixa/symbols/ranking.py). `list.sort(reverse=True)` is stable: it is the
-- insertion that lets an element past those with a greater score and no others.
pub mod Sorted
use orvixa.Prelude.{ℕ, ◌+◌, Bool, List, [], ◌∷◌, map, if◌then◌else◌}
use orvixa.Prelude.Float.{Float, fmin, of_ℕ}
use orvixa.Symbols.Models.{TickerStats}

module _ {ℓ} {F : Type ℓ} ⦃f : Float F⦄ where
  unfoldable pub compute_score : TickerStats F → F
  unfolding fmin
  compute_score stats =
      let one = f.lit 1 1 in
      let activity =
        f.add one (f.mul (fmin (f.div (of_ℕ stats.count) (of_ℕ 100_000)) one) (f.lit 1 10)) in
      let volatility =
        f.add one (fmin (f.div (f.abs stats.price_change_pct) (of_ℕ 100)) (f.lit 5 10)) in
      f.mul (f.mul stats.quote_volume activity) volatility

  -- One scored element among those that are sorted: it stands before the first with a lower score.
  unfoldable pub place {κ} : {A : Type κ} → A × F → List (A × F) → List (A × F)
  place x [] = x ∷ []
  place x (y ∷ ys) = let rest = place x ys in if f.lt y.1 x.1 then x ∷ y ∷ ys else y ∷ rest

  -- From the left, so that an element stands behind those before it with an equal score.
  unfoldable pub sort_from {κ} : {A : Type κ} → List (A × F) → List (A × F) → List (A × F)
  unfolding place
  sort_from sorted [] = sorted
  sort_from sorted (x ∷ xs) = sort_from (place x sorted) xs

  unfoldable pub rank_by_score : List (TickerStats F) → List (TickerStats F × F)
  unfolding sort_from
  rank_by_score stats = sort_from [] (map (λ s. (s, compute_score s)) stats)
