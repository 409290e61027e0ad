-- ===== src/Symbols/Breadth/Counted.antt =====
-- What the counts of a breadth snapshot add up to, and the size of the histories.
use orvixa.Prelude.{
  subst, ℕ, suc, ◌+◌, ◌≤◌, ◌≡◌, refl, Bool, true, false, List, [], ◌∷◌, some, length, push_bounded,
  length-push_bounded, arith,
}
use orvixa.Prelude.Eq.{Text, text_eq}
use orvixa.Prelude.Dict.{Dict, lookup, insert, get_or, lookup-insert}
use orvixa.Prelude.Float.{Float}
use orvixa.Feeds.Base.{TickerRow}
use orvixa.Symbols.Breadth.{
  snapshot_of, Tally, no_tally, one_if, tally_change, tally_price, fold_rows, update,
}

-- The rows that were counted, and what is counted among them.
record Adds (rows : ℕ) (t : Tally) : Type 0 where
  directions : t.advancers + t.decliners + t.unchanged ≡ rows
  above_le : t.above_trend ≤ rows
  highs_le : t.new_highs ≤ rows
  lows_le : t.new_lows ≤ rows

one_if_le : (b : Bool) → one_if b ≤ 1
one_if_le true = omega arith
one_if_le false = omega arith

module _ {ℓ} {F : Type ℓ} ⦃f : Float F⦄ where
  tally_change-directions :
      (c : F) (t : Tally)
      → let t' = tally_change c t in
        (t'.advancers + t'.decliners + t'.unchanged ≡ suc (t.advancers + t.decliners + t.unchanged))
        × (t'.above_trend ≡ t.above_trend)
        × (t'.new_highs ≡ t.new_highs)
        × (t'.new_lows ≡ t.new_lows)
  unfolding tally_change
  tally_change-directions c t = ground arith

  tally_price_adds :
      (p : F) (past : List F) (t : Tally)
      → let t' = tally_price p past t in
        (t'.advancers ≡ t.advancers)
        × (t'.decliners ≡ t.decliners)
        × (t'.unchanged ≡ t.unchanged)
        × (t'.above_trend ≤ suc t.above_trend)
        × (t'.new_highs ≤ suc t.new_highs)
        × (t'.new_lows ≤ suc t.new_lows)
  unfolding tally_price
  tally_price_adds p [] t = (refl, refl, refl, omega arith, omega arith, omega arith)
  tally_price_adds p (x ∷ xs) t = (
    refl,
    refl,
    refl,
    omega (arith, one_if_le _),
    omega (arith, one_if_le _),
    omega (arith, one_if_le _),
  )

  fold_rows-Adds :
      (window : ℕ) (rows : List (TickerRow F)) (history : Dict Text (List F)) (t : Tally) (n : ℕ)
      → Adds n t
      → Adds (length rows + n) (fold_rows window rows history t).1
  unfolding fold_rows
  fold_rows-Adds window [] history t n h = subst (λ k. Adds k t) (omega arith) h
  fold_rows-Adds window (row ∷ rows) history t n h =
      let past = get_or row.symbol [] history in
      let moved = tally_change row.change_pct t in
      let next = tally_price row.price past moved in
      let (d, a, g, l) = tally_change-directions row.change_pct t in
      let (e0, e1, e2, e3, e4, e5) = tally_price_adds row.price past moved in
      let added : Adds (suc n) next = record {
        directions = omega (arith, d, e0, e1, e2, h.directions);
        above_le = omega (arith, a, e3, h.above_le);
        highs_le = omega (arith, g, e4, h.highs_le);
        lows_le = omega (arith, l, e5, h.lows_le);
      } in
      subst (λ k. Adds k (fold_rows window (row ∷ rows) history t).1) (omega arith)
        (fold_rows-Adds window rows (insert row.symbol (push_bounded window past row.price) history)
          next (suc n) added)

  -- In every snapshot the advancing, declining and unchanged rows add up to the number of rows, and
  -- there are at most that many new highs and new lows.
  pub update-counts :
      (window : ℕ) (rows : List (TickerRow F)) (history : Dict Text (List F))
      → let b = (update window rows history).1 in
        (b.advancers + b.decliners + b.unchanged ≡ b.total)
        × (b.total ≡ length rows)
        × (b.new_highs ≤ b.total)
        × (b.new_lows ≤ b.total)
  unfolding update snapshot_of
  update-counts window rows history =
      let start : Adds 0 no_tally = record {
        directions = refl;
        above_le = omega arith;
        highs_le = omega arith;
        lows_le = omega arith;
      } in
      let h = fold_rows-Adds window rows history no_tally 0 start in
      (omega (arith, h.directions), refl, omega (arith, h.highs_le), omega (arith, h.lows_le))

  abbrev pub IsWindowed : ℕ → Dict Text (List F) → Type ℓ
  IsWindowed window history =
      (symbol : Text) (prices : List F)
      → lookup symbol history ≡ some prices
      → length prices ≤ window

  push_bounded-le : (w : ℕ) (xs : List F) (x : F) → length (push_bounded w xs x) ≤ w
  push_bounded-le w xs x = omega (arith, length-push_bounded w xs x)

  fold_rows-IsWindowed :
      (window : ℕ) (rows : List (TickerRow F)) (history : Dict Text (List F)) (t : Tally)
      → IsWindowed window history
      → IsWindowed window (fold_rows window rows history t).0
  unfolding fold_rows
  fold_rows-IsWindowed window [] history t h = h
  fold_rows-IsWindowed window (row ∷ rows) history t h =
      let past = get_or row.symbol [] history in
      fold_rows-IsWindowed window rows
        (insert row.symbol (push_bounded window past row.price) history) _
        (λ symbol prices e. ground (
          arith,
          lookup-insert row.symbol symbol (push_bounded window past row.price) history,
          push_bounded-le window past row.price,
          h symbol prices,
        ))

  -- If no price history is longer than the window, none is after a snapshot either.
  pub update_windowed :
      (window : ℕ) (rows : List (TickerRow F)) (history : Dict Text (List F)) (symbol : Text)
      (prices : List F)
      → IsWindowed window history
      → lookup symbol (update window rows history).0 ≡ some prices
      → length prices ≤ window
  unfolding update
  update_windowed window rows history symbol prices h e =
      fold_rows-IsWindowed window rows history no_tally h symbol prices e
