-- ===== src/Config.antt =====
-- The settings (src/orvixa/config.py): the symbol lists that the environment gives as comma-separated
-- text, and the security checks. Text is ASCII, as the names of pairs are.
pub mod Csv
pub mod Security
mod Tests
use orvixa.Prelude.{
  ℕ, Bool, true, false, not, ◌&&◌, ◌||◌, ◌==◌, List, [], ◌∷◌, ◌++◌, map, Option, none, some, leb,
  select, if◌then◌else◌,
}
use orvixa.Prelude.Eq.{Text, codes, text_eq, text_beq}
use orvixa.Prelude.Sets.{member, union}
use orvixa.Prelude.Result.{Result, ok, raised, runtime_error, value_error}
use orvixa.Feeds.Symbol.{upper, lower, starts_with}

-- `str.isspace` on ASCII.
unfoldable pub is_space : ℕ → Bool
is_space c = c == b' ' || leb b'\t' c && leb c b'\r' || leb 28 c && leb c 31

abbrev pub is_empty : Text → Bool
is_empty [] = true
is_empty (_ ∷ _) = false

strip_left : Text → Text
unfolding is_space
strip_left [] = []
strip_left (c ∷ text) = let rest = strip_left text in if is_space c then rest else c ∷ text

strip_right : Text → Text
unfolding is_space
strip_right [] = []
strip_right (c ∷ text) =
    let rest = strip_right text in if is_space c && is_empty rest then [] else c ∷ rest

-- `str.strip`
unfoldable pub strip : Text → Text
unfolding strip_left strip_right
strip text = strip_right (strip_left text)

-- One more character before the first item.
to_first : ℕ → List Text → List Text
to_first c [] = (c ∷ []) ∷ []
to_first c (item ∷ items) = (c ∷ item) ∷ items

-- `value.split(",")`
unfoldable pub split : Text → List Text
unfolding to_first
split [] = [] ∷ []
split (c ∷ text) = let rest = split text in if c == b',' then [] ∷ rest else to_first c rest

-- A value before validation: text, or a list that was parsed already.
pub data Raw : Type 0 where
  text : Text → Raw
  parsed : List Text → Raw

-- `_split_csv_raw`
unfoldable pub split_csv_raw : Raw → List Text
unfolding split strip
split_csv_raw (parsed items) = items
split_csv_raw (text value) = select (λ item. not (is_empty item)) (map strip (split value))

-- `_split_csv`
unfoldable pub split_csv : Raw → List Text
unfolding split strip
split_csv (parsed items) = items
split_csv (text value) =
    map (λ item. upper (strip item)) (select (λ item. not (is_empty (strip item))) (split value))

-- The fields that are validated.
pub record Settings : Type 0 where
  pub feed : Text
  pub app_env : Text
  pub api_key : Text
  pub cors_origins : List Text
  pub core_symbols : List Text
  pub seed_symbols : List Text
  pub postgres_dsn : Text
  pub redis_url : Text

-- `(info.data.get("app_env") or "production").lower() == "production"`
unfoldable pub is_production : Settings → Bool
is_production s =
    text_beq (lower (if is_empty s.app_env then codes "production" else s.app_env))
      (codes "production")

-- `part in value`
unfoldable pub has_part : Text → Text → Bool
unfolding starts_with
has_part part [] = is_empty part
has_part part (c ∷ value) =
    let rest = has_part part value in if starts_with part (c ∷ value) then true else rest

abbrev pub default_key : Text
default_key = codes "orvixa-dev-key"

abbrev pub default_credentials : Text
default_credentials = codes "orvixa:orvixa"

-- The three checks that raise RuntimeError in production.
unfoldable pub is_insecure : Settings → Bool
unfolding has_part member
is_insecure s =
    (is_empty s.api_key || text_beq s.api_key default_key)
    || member (codes "*") s.cors_origins
    || (has_part default_credentials s.postgres_dsn || has_part default_credentials s.redis_url)

-- `_validate_feed`
unfoldable pub is_feed : Text → Bool
is_feed feed = text_beq (lower feed) (codes "sim") || text_beq (lower feed) (codes "binance")

-- `Settings(...)`. A ValueError of a validator is collected and raised at the end, as a
-- ValidationError; a RuntimeError ends the validation where it is raised.
unfoldable pub validate : Settings → Result Settings
unfolding is_production is_insecure is_feed
validate s =
    if is_production s && is_insecure s
    then raised runtime_error
    else if is_feed s.feed
    then ok (record s { feed = lower s.feed })
    else raised value_error

-- `all_symbols`
unfoldable pub all_symbols : Settings → List Text
unfolding union
all_symbols s = union [] (s.core_symbols ++ s.seed_symbols)
