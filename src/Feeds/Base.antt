-- ===== src/Feeds/Base.antt =====
-- The feed contract (src/orvixa/feeds/base.py): the models of a candle and of a snapshot row, and the
-- fan-out to the registered callbacks.
pub mod FanOut
mod Tests
use orvixa.Prelude.{ℕ, ◌+◌, ◌≡◌, Bool, List, [], ◌∷◌, ◌++◌}
use orvixa.Prelude.Eq.{Text}
use orvixa.Prelude.Float.{Float}

pub record Candle {ℓ} (F : Type ℓ) : Type ℓ where
  pub symbol : Text
  -- Epoch milliseconds of the open.
  pub ts : ℕ
  pub open_price : F
  pub high : F
  pub low : F
  pub close : F
  pub volume : F
  pub quote_volume : F
  pub trades : ℕ
  pub closed : Bool
  pub taker_buy_volume : F

module _ {ℓ} {F : Type ℓ} ⦃f : Float F⦄ where
  -- `close >= open`
  unfoldable is_bullish : Candle F → Bool
  is_bullish c = f.le c.open_price c.close

pub record TickerRow {ℓ} (F : Type ℓ) : Type ℓ where
  pub symbol : Text
  pub price : F
  pub change_pct : F
  pub quote_volume : F

-- How a callback ends. `except Exception` catches what is raised, but not a cancellation.
pub data Outcome : Type 0 where
  returned raised cancelled : Outcome

-- A callback over a payload, acting on the state of the consumers.
abbrev pub Callback {ℓ κ} : Type ℓ → Type κ → Type (ℓ ⊔ κ)
Callback S P = P → S → Outcome × S

-- The consumers' state, and the exceptions that `logger.exception` recorded.
pub record Feed {ℓ} (S : Type ℓ) : Type ℓ where
  pub consumers : S
  pub logged : ℕ

module _ {ℓ κ} {S : Type ℓ} {P : Type κ} where
  -- `on_candle_close` and `on_market_snapshot`
  unfoldable pub register : Callback S P → List (Callback S P) → List (Callback S P)
  register cb callbacks = callbacks ++ cb ∷ []

  -- `_fan_out`: whether it was cancelled, and what it leaves.
  unfoldable pub fan_out : List (Callback S P) → P → Feed S → Outcome × Feed S
  fan_out [] payload s = (returned, s)
  fan_out (cb ∷ callbacks) payload s =
      let (outcome, t) = cb payload s.consumers in
      elim outcome [
        | returned ↦ fan_out callbacks payload (record s { consumers = t })
        | raised ↦ fan_out callbacks payload (record { consumers = t; logged = s.logged + 1 })
        | cancelled ↦ (cancelled, record s { consumers = t })
      ]
