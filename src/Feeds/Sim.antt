-- ===== src/Feeds/Sim.antt =====
-- `SimFeed` (src/orvixa/feeds/sim.py): the subscribed symbols and their random walks, the candles and
-- the rows of a round. The random numbers are drawn from a generator, which is an argument.
pub mod Bars
mod Tests
use orvixa.Prelude.{
  ℕ, zero, suc, ◌+◌, ◌-◌, Bool, true, false, ◌==◌, List, [], ◌∷◌, ◌++◌, Option, none, some,
  if◌then◌else◌,
}
use orvixa.Prelude.Int.{ℤ, pos, negsuc}
use orvixa.Prelude.Eq.{Text, text_eq, codes}
use orvixa.Prelude.Dict.{Dict, insert, erase, contains, lookup, get_or}
use orvixa.Prelude.Float.{Float, nought, of_ℕ, fmax, fmin}
use orvixa.Feeds.Base.{Candle, TickerRow}
use orvixa.Feeds.Symbol.{upper, normalize_symbol}

pub record SymbolState {ℓ} (F : Type ℓ) : Type ℓ where
  pub pair : Text
  pub price : F
  pub sigma : F
  pub qv_base : F
  pub mu : F
  pub burst : ℕ
  pub burst_dir : F

-- `random.Random.random`, and `time.time` in milliseconds at a candle.
pub record Generator {ℓ} (F : Type ℓ) (S : Type 0) : Type ℓ where
  pub random : S → F × S
  pub now : S → ℕ

module _ {ℓ} {F : Type ℓ} ⦃f : Float F⦄ where
  -- `_SEED_UNIVERSE`: price, relative volatility and base of the volume.
  unfoldable pub seed_universe : Dict Text (F × F × F)
  seed_universe =
      (codes "BTCUSDT", (f.lit 68_420 1, f.lit 1 1, f.lit 9_200 1))
      ∷ (codes "ETHUSDT", (f.lit 3_560 1, f.lit 115 100, f.lit 6_100 1))
      ∷ (codes "SOLUSDT", (f.lit 1_684 10, f.lit 17 10, f.lit 4_200 1))
      ∷ (codes "BNBUSDT", (f.lit 6_042 10, f.lit 105 100, f.lit 2_100 1))
      ∷ (codes "XRPUSDT", (f.lit 612 1_000, f.lit 14 10, f.lit 1_900 1))
      ∷ (codes "AVAXUSDT", (f.lit 386 10, f.lit 18 10, f.lit 1_300 1))
      ∷ (codes "LINKUSDT", (f.lit 178 10, f.lit 16 10, f.lit 1_150 1))
      ∷ (codes "DOGEUSDT", (f.lit 1_632 10_000, f.lit 23 10, f.lit 3_200 1))
      ∷ (codes "1000PEPEUSDT", (f.lit 1_284 100_000, f.lit 32 10, f.lit 2_900 1))
      ∷ (codes "1000SHIBUSDT", (f.lit 2_618 100_000, f.lit 26 10, f.lit 2_400 1))
      ∷ (codes "WIFUSDT", (f.lit 284 100, f.lit 36 10, f.lit 1_450 1))
      ∷ (codes "BONKUSDT", (f.lit 3_142 100_000, f.lit 38 10, f.lit 1_100 1))
      ∷ []

  module _ {S : Type 0} (g : Generator F S) where
    -- `_SymbolState(pair, rng)`
    unfoldable pub new_state : Text → S → SymbolState F × S
    unfolding seed_universe
    new_state pair s =
        let (price, vol, qv) = get_or pair (f.lit 1 1, f.lit 15 10, f.lit 800 1) seed_universe in
        let (r, next) = g.random s in
        (
          record {
            pair = pair;
            price = price;
            sigma = f.mul (f.lit 7 10_000) vol;
            qv_base = qv;
            mu = f.mul (f.sub r (f.lit 5 10)) (f.lit 25 100_000);
            burst = 0;
            burst_dir = nought;
          },
          next,
        )

    -- `subscribe`: states for the pairs that have none.
    unfoldable pub subscribe :
        List Text → Dict Text (SymbolState F) → S → Dict Text (SymbolState F) × S
    unfolding new_state
    subscribe [] states s = (states, s)
    subscribe (p ∷ symbols) states s =
        let (fresh, next) = new_state (upper p) s in
        let known = subscribe symbols states s in
        let added = subscribe symbols (insert (upper p) fresh states) next in
        if contains (upper p) states then known else added

    -- The start of `_step_price`: a new drift, now and then.
    unfoldable pub redrift : SymbolState F → S → SymbolState F × S
    redrift st s =
        let (chance, s1) = g.random s in
        let (r, s2) = g.random s1 in
        if f.lt chance (f.lit 12 1_000)
        then (record st { mu = f.mul (f.sub r (f.lit 5 10)) (f.lit 3 10_000) }, s2)
        else (st, s1)

    -- `3 + int(random() * 5)`, of a number from 0 to below 1.
    unfoldable pub burst_length : F → ℕ
    burst_length r = elim (f.truncate (f.mul r (of_ℕ 5))) [
      | none ↦ 3
      | some n ↦ elim n [ pos m ↦ 3 + m | negsuc _ ↦ 3 ]
    ]

    -- The start of a burst, where there is none.
    unfoldable pub start_burst : SymbolState F → S → SymbolState F × S
    unfolding burst_length
    start_burst st s =
        let (chance, s1) = g.random s in
        let (r, s2) = g.random s1 in
        let (side, s3) = g.random s2 in
        let dir = if f.lt side (f.lit 5 10) then of_ℕ 1 else f.neg (of_ℕ 1) in
        if st.burst == 0
        then (if f.lt chance (f.lit 25 10_000)
            then (record st { burst = burst_length r; burst_dir = dir }, s3)
            else (st, s1))
        else (st, s)

    unfoldable pub gauss : S → F × S
    unfolding fmax
    gauss s =
        let (r, s1) = g.random s in
        let (v, s2) = g.random s1 in
        let u = fmax r (f.lit 1 1_000_000_000_000) in
        let two_pi = f.mul (of_ℕ 2) (f.lit 3_141_592_653_589_793 1_000_000_000_000_000) in
        (f.mul (f.sqrt (f.mul (f.neg (of_ℕ 2)) (f.log u))) (f.cos (f.mul two_pi v)), s2)

    -- The price after a shock.
    unfoldable pub move_price : SymbolState F → F → SymbolState F
    unfolding fmax
    move_price st shock =
        let pushed = f.add st.mu (f.mul (f.mul st.burst_dir st.sigma) (of_ℕ 3)) in
        let drift = if st.burst == 0 then st.mu else pushed in
        record st {
          burst = st.burst - 1;
          price =
              fmax (f.mul st.price (f.add (f.add (of_ℕ 1) drift) shock))
                (f.lit 1 1_000_000_000_000);
        }

    -- `_step_price`: the state after the tick, its quote volume, and the generator.
    unfoldable pub step_price : SymbolState F → S → SymbolState F × F × S
    unfolding redrift start_burst gauss move_price
    step_price st s =
        let (drifting, s1) = redrift st s in
        let (bursting, s2) = start_burst drifting s1 in
        let (z, s3) = gauss s2 in
        let shock = f.mul z bursting.sigma in
        let (r, s4) = g.random s3 in
        let spread = f.add (f.lit 6 10) (f.mul r (f.lit 9 10)) in
        (
          move_price bursting shock,
          f.mul (f.mul st.qv_base spread) (f.add (of_ℕ 1) (f.mul (f.abs shock) (of_ℕ 120))),
          s4,
        )

    -- The ticks of a candle: the state, the highest and the lowest price, and the quote volume.
    unfoldable pub ticks : ℕ → SymbolState F → F → F → F → S → SymbolState F × F × F × F × S
    unfolding step_price fmax fmin
    ticks zero st high low quote_v s = (st, high, low, quote_v, s)
    ticks (suc n) st high low quote_v s =
        let (next, quote, s1) = step_price st s in
        ticks n next (fmax high next.price) (fmin low next.price) (f.add quote_v quote) s1

    -- `buy_share`
    unfoldable pub buy_share : F → F → F
    unfolding fmax fmin
    buy_share open_p close =
        let lean = f.mul (f.div (f.sub close open_p) open_p) (of_ℕ 50) in
        if f.eq open_p nought
        then f.lit 5 10
        else f.add (f.lit 5 10) (fmax (f.neg (f.lit 4 10)) (fmin (f.lit 4 10) lean))

    -- The candle of the ticks from `open_p` on.
    unfoldable pub candle_of : Text → ℕ → F → F → F → F → F → Candle F
    unfolding buy_share normalize_symbol
    candle_of pair now open_p close high low quote_v =
        let volume = if f.eq close nought then nought else f.div quote_v close in
        record {
          symbol = normalize_symbol pair;
          ts = now;
          open_price = open_p;
          high = high;
          low = low;
          close = close;
          volume = volume;
          quote_volume = quote_v;
          trades = 7;
          closed = true;
          taker_buy_volume = f.mul volume (buy_share open_p close);
        }

    unfoldable pub build_candle : SymbolState F → S → Candle F × SymbolState F × S
    unfolding ticks candle_of
    build_candle st s =
        let (last, high, low, quote_v, next) = ticks 7 st st.price st.price nought s in
        (candle_of st.pair (g.now next) st.price last.price high low quote_v, last, next)

    -- The row of the snapshot for a candle.
    unfoldable pub ticker_of : Candle F → TickerRow F
    ticker_of c = record {
      symbol = c.symbol;
      price = c.close;
      change_pct =
          if f.eq c.open_price nought
          then nought
          else f.mul (f.div (f.sub c.close c.open_price) c.open_price) (of_ℕ 100);
      quote_volume = c.quote_volume;
    }

    -- A round of `_loop`: the candles, the rows of the snapshot, and the states.
    unfoldable pub round_of :
        Dict Text (SymbolState F)
        → S
        → List (Candle F) × List (TickerRow F) × Dict Text (SymbolState F) × S
    unfolding build_candle ticker_of
    round_of [] s = ([], [], [], s)
    round_of ((key, st) ∷ states) s =
        let (c, last, next) = build_candle st s in
        let (candles, rows, later, end) = round_of states next in
        (c ∷ candles, ticker_of c ∷ rows, (key, last) ∷ later, end)

  -- `unsubscribe`
  unfoldable pub unsubscribe : List Text → Dict Text (SymbolState F) → Dict Text (SymbolState F)
  unsubscribe [] states = states
  unsubscribe (p ∷ symbols) states = unsubscribe symbols (erase (upper p) states)
