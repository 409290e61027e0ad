-- ===== src/Feeds/Sim/Bars.antt =====
-- The bars of the simulator are well formed.
use orvixa.Prelude.{zero, ℕ, suc, [], ◌∷◌, All, arith}
use orvixa.Prelude.Eq.{Text}
use orvixa.Prelude.Dict.{Dict}
use orvixa.Prelude.Float.{Float, IsOrdered, ◌≼◌, fmax, fmin, nought}
use orvixa.Prelude.Float.Order.{le-fmax, fmin-le}
use orvixa.Feeds.Base.{Candle}
use orvixa.Feeds.Sim.{SymbolState, Generator, step_price, ticks, candle_of, build_candle, round_of}

module _ {ℓ} {F : Type ℓ} ⦃f : Float F⦄ where
  -- The open and the close lie between the low and the high.
  abbrev pub IsBar : Candle F → Type 0
  IsBar c =
      (c.low ≼ c.open_price) × (c.open_price ≼ c.high) × (c.low ≼ c.close) × (c.close ≼ c.high)

  abbrev pub IsNumbered : Candle F → Type 0
  IsNumbered c = (c.open_price ≼ c.open_price) × (c.close ≼ c.close)

module _ {ℓ} {F : Type ℓ} ⦃f : Float F⦄ (laws : IsOrdered F) {S : Type 0} (g : Generator F S) where
  open laws use {refl_of_le, le_total, le_trans, lt-eq-not-le, num_of_lt}

  -- A maximum stays at least what it was, also where the new value is NaN; so does a minimum below.
  fmax_keeps : (x high y : F) → x ≼ high → x ≼ fmax high y
  unfolding fmax
  fmax_keeps x high y h =
      ground (arith, num_of_lt high y, lt-eq-not-le high y, le_total high y, le_trans x high y)

  fmin_keeps : (x low y : F) → low ≼ x → fmin low y ≼ x
  unfolding fmin
  fmin_keeps x low y h =
      ground (arith, num_of_lt y low, lt-eq-not-le y low, le_total y low, le_trans y low x)

  -- What the ticks keep of a price between the lowest and the highest one.
  ticks_keep :
      (n : ℕ) (x : F) (st : SymbolState F) (high low quote_v : F) (s : S)
      → low ≼ x
      → x ≼ high
      → (let (last, high', low', q, end) = ticks g n st high low quote_v s in
          (low' ≼ x) × (x ≼ high'))
  unfolding ticks
  ticks_keep zero x st high low quote_v s a b = (a, b)
  ticks_keep (suc n) x st high low quote_v s a b =
      let (next, quote, s1) = step_price g st s in
      ticks_keep n x next (fmax high next.price) (fmin low next.price) (f.add quote_v quote) s1
        (fmin_keeps x low next.price a) (fmax_keeps x high next.price b)

  -- The last of at least one tick.
  ticks_last :
      (n : ℕ) (x : F) (st : SymbolState F) (high low quote_v : F) (s : S)
      → low ≼ x
      → x ≼ high
      → (let (last, high', low', q, end) = ticks g (suc n) st high low quote_v s in
          last.price ≼ last.price → (low' ≼ last.price) × (last.price ≼ high'))
  unfolding ticks
  ticks_last zero x st high low quote_v s a b num =
      let (next, quote, s1) = step_price g st s in
      let (_, high_num) = refl_of_le x high b in
      let (low_num, _) = refl_of_le low x a in
      ((fmin-le laws low next.price low_num num).1, (le-fmax laws high next.price high_num num).1)
  ticks_last (suc n) x st high low quote_v s a b num =
      let (next, quote, s1) = step_price g st s in
      ticks_last n x next (fmax high next.price) (fmin low next.price) (f.add quote_v quote) s1
        (fmin_keeps x low next.price a) (fmax_keeps x high next.price b) num

  build_candle-IsBar :
      (st : SymbolState F) (s : S)
      → (let c = (build_candle g st s).0 in
          c.open_price ≼ c.open_price → c.close ≼ c.close → IsBar c)
  unfolding build_candle candle_of
  build_candle-IsBar st s num_open num_close =
      let (a, b) = ticks_keep 7 st.price st st.price st.price nought s num_open num_open in
      let (c, d) =
        ticks_last 6 st.price st st.price st.price nought s num_open num_open num_close in
      (a, b, c, d)

  -- Every candle of a round whose open and close are numbers has both between its low and its high,
  -- whatever the generator draws, also where a price within it is NaN.
  pub round_of-IsBar :
      (states : Dict Text (SymbolState F)) (s : S)
      → All IsNumbered (round_of g states s).0
      → All IsBar (round_of g states s).0
  unfolding round_of
  round_of-IsBar [] s h = tt
  round_of-IsBar ((key, st) ∷ states) s h =
      let (c, last, next) = build_candle g st s in
      (build_candle-IsBar st s h.0.0 h.0.1, round_of-IsBar states next h.1)
