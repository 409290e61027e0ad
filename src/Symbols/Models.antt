-- ===== src/Symbols/Models.antt =====
-- The records of src/orvixa/symbols/models.py and the state that the manager keeps for a symbol
-- (src/orvixa/symbols/manager.py), with the settings that the package reads.
use orvixa.Prelude.{ℕ, List, Option, none, []}
use orvixa.Prelude.Eq.{Text}
use orvixa.Prelude.Float.{Float, nought}
use orvixa.Feeds.Symbol.{normalize_symbol}

-- `status` of an exchange symbol: "TRADING", or another.
pub record ExchangeSymbol : Type 0 where
  pub pair : Text
  pub base_asset : Text
  pub quote_asset : Text
  pub status : Text

-- The property `base`.
unfoldable pub base_of : ExchangeSymbol → Text
base_of es = normalize_symbol es.pair

pub record TickerStats {ℓ} (F : Type ℓ) : Type ℓ where
  pub pair : Text
  pub last_price : F
  pub quote_volume : F
  pub price_change_pct : F
  pub count : ℕ

pub data Klass : Type 0 where
  core alt meme : Klass

pub data Status : Type 0 where
  trading frozen : Status

-- A tag is a class or "spike".
pub data Tag : Type 0 where
  klass : Klass → Tag
  spike : Tag

abbrev pub tier_core : ℕ
tier_core = 0

abbrev pub tier_watch : ℕ
tier_watch = 1

abbrev pub tier_rest : ℕ
tier_rest = 2

-- `_SymbolState`. The field `class_` is the source's `klass`.
pub record SymbolState {ℓ} (F : Type ℓ) : Type ℓ where
  pub base : Text
  pub pair : Text
  pub tier : ℕ
  pub class_ : Klass
  pub status : Status
  pub tags : List Tag
  pub rank : Option ℕ
  pub quote_volume : F
  pub price_change_pct : F
  pub last_price : F
  pub count : ℕ
  pub prev_quote_volume : Option F
  pub prev_count : Option ℕ
  pub calm_cycles : ℕ

-- A state with the defaults of `_SymbolState`.
unfoldable pub new_state {ℓ} :
    {F : Type ℓ} ⦃f : Float F⦄ → Text → Text → ℕ → Klass → Status → SymbolState F
new_state base pair tier class_ status = record {
  base = base;
  pair = pair;
  tier = tier;
  class_ = class_;
  status = status;
  tags = [];
  rank = none;
  quote_volume = nought;
  price_change_pct = nought;
  last_price = nought;
  count = 0;
  prev_quote_volume = none;
  prev_count = none;
  calm_cycles = 0;
}

pub data Reason : Type 0 where
  ranking spike demote_spike delisted relisted : Reason

pub record TierChange : Type 0 where
  pub base : Text
  pub pair : Text
  pub from_tier : ℕ
  pub to_tier : ℕ
  pub reason : Reason

-- The settings of the symbol manager, and its sets `_core` and `_meme` of normalized symbols.
pub record Settings {ℓ} (F : Type ℓ) : Type ℓ where
  pub core_set : List Text
  pub meme_set : List Text
  pub tier1_size : ℕ
  pub promotion_volume_multiplier : F
  pub promotion_volatility_pct : F
  pub demotion_grace_cycles : ℕ
