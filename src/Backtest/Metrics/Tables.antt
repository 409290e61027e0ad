-- ===== src/Backtest/Metrics/Tables.antt =====
-- The dicts and groups that the metrics are put into.
use orvixa.Prelude.{ℕ, ◌+◌, List, [], ◌∷◌, ◌++◌}
use orvixa.Prelude.Eq.{Text, text_eq, ℕ_eq, Eq}
use orvixa.Prelude.Dict.{Dict, insert, get_or}
use orvixa.Prelude.Result.{Result, ok, ◌>>=◌}

-- A loop that assigns the value of each key in turn.
unfoldable pub assign_each {κ ι} :
    {K : Type κ} {V : Type ι} ⦃e : Eq K⦄ → (K → Result V) → List K → Dict K V → Result (Dict K V)
assign_each g [] out = ok out
assign_each g (k ∷ keys) out = do v ← g k; assign_each g keys (insert k v out)

-- A dict with every value replaced.
unfoldable pub map_values {κ ι ο} :
    {K : Type κ} {V : Type ι} {W : Type ο} → (V → W) → Dict K V → Dict K W
map_values g [] = []
map_values g ((k, v) ∷ d) = (k, g v) ∷ map_values g d

-- `d.setdefault(k, []).append(x)` for each element.
unfoldable pub group_by {κ ι} :
    {K : Type κ} {V : Type ι} ⦃e : Eq K⦄ → (V → K) → List V → Dict K (List V) → Dict K (List V)
group_by key [] out = out
group_by key (x ∷ xs) out = group_by key xs (insert (key x) (get_or (key x) [] out ++ x ∷ []) out)

-- `sum(ord(c) for c in text)`
unfoldable pub sum_codes : Text → ℕ
sum_codes [] = 0
sum_codes (c ∷ text) = c + sum_codes text
