-- ===== src/Analytics/Indicators.antt =====
-- The incremental indicators (src/orvixa/analytics/indicators.py): `EMA`, `WilderRSI`, `WilderATR`,
-- `RelativeVolume` and `RealizedVolatility`, each as its state and its `update`, for periods and windows
-- of at least 1, at which no division raises.
pub mod WarmUp
use orvixa.Prelude.{
  map, ◌&&◌, ℕ, suc, ◌+◌, ◌-◌, Bool, true, false, List, [], ◌∷◌, ◌++◌, Option, none, some, length,
  push_bounded, ltb, if◌then◌else◌, ◌||◌,
}
use orvixa.Feeds.Base.{Candle}
use orvixa.Analytics.Trend.{IndicatorSnapshot}
use orvixa.Prelude.Float.{Float, nought, of_ℕ, fmax}

-- The averages of gains and losses.
pub record Averages {ℓ} (F : Type ℓ) : Type ℓ where
  pub gain : F
  pub loss : F

pub record WilderRsi {ℓ} (F : Type ℓ) : Type ℓ where
  pub prev_close : Option F
  pub averages : Option (Averages F)
  pub seed_gains : List F
  pub seed_losses : List F
  pub value : Option F

pub record WilderAtr {ℓ} (F : Type ℓ) : Type ℓ where
  pub prev_close : Option F
  pub seed_trs : List F
  pub avg_tr : Option F
  pub value : Option F

pub record RelativeVolume {ℓ} (F : Type ℓ) : Type ℓ where
  pub volumes : List F
  pub value : Option F

module _ {ℓ} {F : Type ℓ} ⦃f : Float F⦄ where
  -- `EMA.update`, whose state is its value.
  unfoldable pub ema_update : ℕ → Option F → F → F
  ema_update period none price = price
  ema_update period (some value) price =
      f.add (f.mul (f.sub price value) (f.div (of_ℕ 2) (of_ℕ (period + 1)))) value

  abbrev pub new_rsi : WilderRsi F
  new_rsi = record {
    prev_close = none;
    averages = none;
    seed_gains = [];
    seed_losses = [];
    value = none;
  }

  abbrev pub new_atr : WilderAtr F
  new_atr = record { prev_close = none; seed_trs = []; avg_tr = none; value = none }

  -- Wilder's smoothing of an average.
  unfoldable pub smoothed : ℕ → F → F → F
  smoothed period average x = f.div (f.add (f.mul average (of_ℕ (period - 1))) x) (of_ℕ period)

  -- The index of the averages.
  unfoldable pub rsi_of : Averages F → F
  rsi_of averages =
      if f.eq averages.loss nought
      then of_ℕ 100
      else f.sub (of_ℕ 100) (f.div (of_ℕ 100) (f.add (of_ℕ 1) (f.div averages.gain averages.loss)))

  valued : Averages F → WilderRsi F → Option F × WilderRsi F
  unfolding rsi_of
  valued averages r =
      let value = some (rsi_of averages) in
      (value, record r { averages = some averages; value = value })

  -- The gain and the loss of a change, in the seed or after it.
  unfoldable pub rsi_change : ℕ → F → F → Option (Averages F) → WilderRsi F → Option F × WilderRsi F
  unfolding valued smoothed
  rsi_change period gain loss none r =
      let gains = r.seed_gains ++ gain ∷ [] in
      let losses = r.seed_losses ++ loss ∷ [] in
      let seeded : WilderRsi F = record r { seed_gains = gains; seed_losses = losses } in
      if ltb (length gains) period
      then (none, seeded)
      else valued
          (record {
            gain = f.div (f.sum gains) (of_ℕ period);
            loss = f.div (f.sum losses) (of_ℕ period);
          })
          seeded
  rsi_change period gain loss (some averages) r =
      valued
        (record {
          gain = smoothed period averages.gain gain;
          loss = smoothed period averages.loss loss;
        })
        r

  rsi_from : ℕ → F → Option F → WilderRsi F → Option F × WilderRsi F
  unfolding rsi_change fmax
  rsi_from period close none r = (none, record r { prev_close = some close })
  rsi_from period close (some prev) r =
      let change = f.sub close prev in
      let moved : WilderRsi F = record r { prev_close = some close } in
      rsi_change period (fmax change nought) (fmax (f.neg change) nought) r.averages moved

  -- `WilderRSI.update`
  unfoldable pub rsi_update : ℕ → WilderRsi F → F → Option F × WilderRsi F
  unfolding rsi_from
  rsi_update period r close = rsi_from period close r.prev_close r

  unfoldable pub true_range : Option F → F → F → F → F
  unfolding fmax
  true_range none high low close = f.sub high low
  true_range (some prev) high low close =
      fmax (fmax (f.sub high low) (f.abs (f.sub high prev))) (f.abs (f.sub low prev))

  atr_from : ℕ → F → Option F → WilderAtr F → Option F × WilderAtr F
  unfolding smoothed
  atr_from period range none a =
      let trs = a.seed_trs ++ range ∷ [] in
      let average = some (f.div (f.sum trs) (of_ℕ period)) in
      if ltb (length trs) period
      then (none, record a { seed_trs = trs })
      else (average, record a { seed_trs = trs; avg_tr = average; value = average })
  atr_from period range (some avg) a =
      let average = some (smoothed period avg range) in
      (average, record a { avg_tr = average; value = average })

  -- `WilderATR.update`
  unfoldable pub atr_update : ℕ → WilderAtr F → F → F → F → Option F × WilderAtr F
  unfolding atr_from true_range
  atr_update period a high low close =
      let moved : WilderAtr F = record a { prev_close = some close } in
      atr_from period (true_range a.prev_close high low close) a.avg_tr moved

  unfoldable pub relative_volume : ℕ → List F → F → Option F
  relative_volume window volumes volume =
      let avg = f.div (f.sum volumes) (of_ℕ (length volumes)) in
      if ltb (length volumes) window || f.le (f.sum volumes) nought
      then none
      else if f.lt nought avg
      then some (f.div volume avg)
      else none

  -- `RelativeVolume.update`
  unfoldable pub relative_volume_update : ℕ → RelativeVolume F → F → Option F × RelativeVolume F
  unfolding relative_volume
  relative_volume_update window v volume =
      let value = relative_volume window v.volumes volume in
      (value, record { volumes = push_bounded window v.volumes volume; value = value })

pub record RealizedVolatility {ℓ} (F : Type ℓ) : Type ℓ where
  pub prev_close : Option F
  pub returns : List F
  pub value : Option F

module _ {ℓ} {F : Type ℓ} ⦃f : Float F⦄ where
  -- The log returns with that of a close, for a quotient of closes that does not vanish.
  unfoldable pub returns_with : ℕ → Option F → List F → F → List F
  returns_with window none returns close = returns
  returns_with window (some prev) returns close =
      if f.lt nought prev && f.lt nought close
      then push_bounded window returns (f.log (f.div close prev))
      else returns

  -- The deviation of the returns, in percent. The square of a float is its product with itself.
  unfoldable pub deviation : List F → F
  deviation returns =
      let count = of_ℕ (length returns) in
      let mean = f.div (f.sum returns) count in
      let squares = map (λ r. f.mul (f.sub r mean) (f.sub r mean)) returns in
      f.mul (f.sqrt (f.div (f.sum squares) count)) (of_ℕ 100)

  -- `RealizedVolatility.update`
  unfoldable pub volatility_update : ℕ → RealizedVolatility F → F → Option F × RealizedVolatility F
  unfolding returns_with deviation
  volatility_update window v close =
      let returns = returns_with window v.prev_close v.returns close in
      let moved : RealizedVolatility F = record v { prev_close = some close; returns = returns } in
      let value = some (deviation returns) in
      if ltb (length returns) window then (none, moved) else (value, record moved { value = value })

-- `SymbolIndicators`: one of each, and the periods and windows of the settings.
pub record IndicatorSettings : Type 0 where
  pub ema_fast_period : ℕ
  pub ema_slow_period : ℕ
  pub rsi_period : ℕ
  pub atr_period : ℕ
  pub realized_vol_window : ℕ
  pub relative_volume_window : ℕ

pub record SymbolIndicators {ℓ} (F : Type ℓ) : Type ℓ where
  pub ema_fast : Option F
  pub ema_slow : Option F
  pub rsi : WilderRsi F
  pub atr : WilderAtr F
  pub vol_realized : RealizedVolatility F
  pub vol_rel : RelativeVolume F

module _ {ℓ} {F : Type ℓ} ⦃f : Float F⦄ where
  abbrev pub new_indicators : SymbolIndicators F
  new_indicators = record {
    ema_fast = none;
    ema_slow = none;
    rsi = new_rsi;
    atr = new_atr;
    vol_realized = record { prev_close = none; returns = []; value = none };
    vol_rel = record { volumes = []; value = none };
  }

  -- `SymbolIndicators.update`
  unfoldable pub indicators_update :
      IndicatorSettings → SymbolIndicators F → Candle F → IndicatorSnapshot F × SymbolIndicators F
  unfolding ema_update rsi_update atr_update volatility_update relative_volume_update
  indicators_update settings s candle =
      let fast = ema_update settings.ema_fast_period s.ema_fast candle.close in
      let slow = ema_update settings.ema_slow_period s.ema_slow candle.close in
      let (rsi_value, rsi_next) = rsi_update settings.rsi_period s.rsi candle.close in
      let (atr_value, atr_next) =
        atr_update settings.atr_period s.atr candle.high candle.low candle.close in
      let (vol_value, vol_next) =
        volatility_update settings.realized_vol_window s.vol_realized candle.close in
      let (rel_value, rel_next) =
        relative_volume_update settings.relative_volume_window s.vol_rel candle.volume in
      (
        record {
          close = candle.close;
          high = candle.high;
          low = candle.low;
          volume = candle.volume;
          ema_fast = some fast;
          ema_slow = some slow;
          ema_slow_prev = s.ema_slow;
          rsi = rsi_value;
          atr = atr_value;
          vol_realized = vol_value;
          vol_rel = rel_value;
        },
        record {
          ema_fast = some fast;
          ema_slow = some slow;
          rsi = rsi_next;
          atr = atr_next;
          vol_realized = vol_next;
          vol_rel = rel_next;
        },
      )
