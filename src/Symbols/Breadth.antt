-- ===== src/Symbols/Breadth.antt =====
-- `BreadthEngine` and the watchlist (src/orvixa/symbols/breadth.py, src/orvixa/symbols/watchlist.py).
-- A deque of prices is the list of its elements, the oldest first.
pub mod Counted
use orvixa.Prelude.{
  ℕ, ◌+◌, Bool, true, false, not, ◌&&◌, ◌||◌, ◌==◌, List, [], ◌∷◌, map, Option, none, some, length,
  push_bounded, ltb, if◌then◌else◌,
}
use orvixa.Prelude.Eq.{Text, text_eq}
use orvixa.Prelude.Dict.{Dict, lookup, insert, get_or}
use orvixa.Prelude.Float.{Float, nought, of_ℕ, max_of, min_of}
use orvixa.Feeds.Base.{TickerRow}

-- The counters of `update`.
pub record Tally : Type 0 where
  pub advancers : ℕ
  pub decliners : ℕ
  pub unchanged : ℕ
  pub above_trend : ℕ
  pub new_highs : ℕ
  pub new_lows : ℕ

abbrev pub no_tally : Tally
no_tally = record {
  advancers = 0;
  decliners = 0;
  unchanged = 0;
  above_trend = 0;
  new_highs = 0;
  new_lows = 0;
}

pub record BreadthSnapshot {ℓ} (F : Type ℓ) : Type ℓ where
  pub total : ℕ
  pub advancers : ℕ
  pub decliners : ℕ
  pub unchanged : ℕ
  pub ad_ratio : F
  pub pct_above_trend : F
  pub new_highs : ℕ
  pub new_lows : ℕ

abbrev one_if : Bool → ℕ
one_if b = if b then 1 else 0

-- `max(_MIN_TREND_WINDOW, trend_window)`
unfoldable pub trend_window_of : ℕ → ℕ
trend_window_of trend_window = if ltb 2 trend_window then trend_window else 2

module _ {ℓ} {F : Type ℓ} ⦃f : Float F⦄ where
  -- The direction of a row.
  unfoldable pub tally_change : F → Tally → Tally
  tally_change change_pct t =
      if f.lt nought change_pct
      then record t { advancers = t.advancers + 1 }
      else if f.lt change_pct nought
      then record t { decliners = t.decliners + 1 }
      else record t { unchanged = t.unchanged + 1 }

  -- A price against the symbol's history.
  unfoldable pub tally_price : F → List F → Tally → Tally
  unfolding max_of min_of
  tally_price price [] t = t
  tally_price price (x ∷ xs) t =
      let trend = f.div (f.sum (x ∷ xs)) (of_ℕ (length (x ∷ xs))) in
      record t {
        above_trend = t.above_trend + one_if (f.lt trend price);
        new_highs = t.new_highs + one_if (f.lt (max_of x xs) price);
        new_lows = t.new_lows + one_if (f.lt price (min_of x xs));
      }

  -- The loop of `update`, with `_history`.
  unfoldable pub fold_rows :
      ℕ → List (TickerRow F) → Dict Text (List F) → Tally → Dict Text (List F) × Tally
  unfolding tally_change tally_price
  fold_rows window [] history t = (history, t)
  fold_rows window (row ∷ rows) history t =
      let past = get_or row.symbol [] history in
      fold_rows window rows (insert row.symbol (push_bounded window past row.price) history)
        (tally_price row.price past (tally_change row.change_pct t))

  unfoldable pub snapshot_of : ℕ → Tally → BreadthSnapshot F
  snapshot_of total t = record {
    total = total;
    advancers = t.advancers;
    decliners = t.decliners;
    unchanged = t.unchanged;
    ad_ratio =
        (if ltb 0 t.decliners
          then f.div (of_ℕ t.advancers) (of_ℕ t.decliners)
          else of_ℕ t.advancers);
    pct_above_trend =
        (if ltb 0 total
          then f.mul (f.div (of_ℕ t.above_trend) (of_ℕ total)) (of_ℕ 100)
          else nought);
    new_highs = t.new_highs;
    new_lows = t.new_lows;
  }

  unfoldable pub update :
      ℕ → List (TickerRow F) → Dict Text (List F) → Dict Text (List F) × BreadthSnapshot F
  unfolding fold_rows snapshot_of
  update window rows history =
      let (history', t) = fold_rows window rows history no_tally in
      (history', snapshot_of (length rows) t)
