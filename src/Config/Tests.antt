-- ===== src/Config/Tests.antt =====
-- Settings and requests on concrete data.
use orvixa.Prelude.{◌≡◌, ◌≢◌, refl, false, List, [], ◌∷◌, some, All}
use orvixa.Prelude.Eq.{Text, codes, text_eq}
use orvixa.Prelude.Sets.{member}
use orvixa.Prelude.Result.{ok}
use orvixa.Feeds.Symbol.{to_upper, to_lower, starts_with}
use orvixa.Config.{
  Settings, is_production, is_insecure, is_feed, has_part, default_key, default_credentials,
  validate, text, split_csv, is_space,
}
use orvixa.Config.Security.{validate-secure}
use orvixa.Config.Csv.{IsItem, is_plain, split_csv-print}
use orvixa.Api.{symbols, Database, handle, allows}
use orvixa.Api.Guarded.{IsFromDatabase, handle_requires_key}

-- A production deployment.
abbrev settings : Settings
settings = record {
  feed = codes "binance";
  app_env = codes "Production";
  api_key = codes "k1";
  cors_origins = codes "https://a.b" ∷ [];
  core_symbols = codes "BTCUSDT" ∷ codes "ETHUSDT" ∷ [];
  seed_symbols = codes "ETHUSDT" ∷ [];
  postgres_dsn = codes "db";
  redis_url = codes "redis";
}

accepted : validate settings ≡ ok settings
unfolding validate is_production is_insecure is_feed to_lower has_part starts_with member
accepted = refl

validate-secure_example :
    (settings.api_key ≢ [])
    × (settings.api_key ≢ default_key)
    × (member (codes "*") settings.cors_origins ≡ false)
    × (has_part default_credentials settings.postgres_dsn ≡ false)
    × (has_part default_credentials settings.redis_url ≡ false)
unfolding is_production to_lower
validate-secure_example = validate-secure settings {s = settings} accepted refl

abbrev items : List Text
items = codes "BTCUSDT" ∷ codes "ETHUSDT" ∷ []

items-IsItem : All IsItem items
unfolding is_plain is_space to_upper
items-IsItem = (
  record {
    nonempty = refl;
    upper_case = refl;
    plain = (refl, (refl, (refl, (refl, (refl, (refl, (refl, tt)))))));
  },
  (
    record {
      nonempty = refl;
      upper_case = refl;
      plain = (refl, (refl, (refl, (refl, (refl, (refl, (refl, tt)))))));
    },
    tt,
  ),
)

split_csv-print_example : split_csv (text (codes "BTCUSDT, ETHUSDT")) ≡ items
split_csv-print_example = split_csv-print items items-IsItem

abbrev database : Database Text
database = record {
  get_id = λ base. ok (some 1);
  list_all = ok (codes "BTC" ∷ []);
  get_recent = ok [];
}

handle_requires_key_example :
    (some (codes "k1") ≡ some settings.api_key)
    × (settings.api_key ≢ [])
    × (settings.api_key ≢ default_key)
unfolding is_production to_lower handle allows IsFromDatabase
handle_requires_key_example =
    handle_requires_key settings settings database (some (codes "k1")) symbols accepted refl tt
