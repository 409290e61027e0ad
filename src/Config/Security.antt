-- ===== src/Config/Security.antt =====
-- What accepted settings guarantee.
use orvixa.Prelude.{subst, ◌≡◌, ◌≢◌, true, false, ◌&&◌, ◌||◌, [], arith, Bool-cases, inl, inr}
use orvixa.Prelude.Eq.{Text, codes, text_eq, text_beq, text_beq_iff}
use orvixa.Prelude.Sets.{member}
use orvixa.Prelude.Result.{ok}
use orvixa.Feeds.Symbol.{lower}
use orvixa.Config.{
  Settings, is_empty, is_production, is_insecure, has_part, default_key, default_credentials,
  is_feed, validate,
}

checked_same :
    (raw : Settings)
    → (is_production raw && is_insecure raw) ≡ false
    → let accepted : Settings = record raw { feed = lower raw.feed } in
      (is_production accepted && is_insecure accepted) ≡ false
unfolding is_production is_insecure
checked_same raw h = h

validate-checked :
    (raw : Settings) {s : Settings}
    → validate raw ≡ ok s
    → (is_production s && is_insecure s) ≡ false
unfolding validate
validate-checked raw {s} e = elim (Bool-cases (is_production raw && is_insecure raw)) [
  | inl bad ↦ absurd (ground arith)
  | inr good ↦ elim (Bool-cases (is_feed raw.feed)) [
    | inr unknown ↦ absurd (ground arith)
    | inl known ↦
        let accepted : Settings = record raw { feed = lower raw.feed } in
        let same : accepted ≡ s = ground arith in
        subst (λ t. (is_production t && is_insecure t) ≡ false) same (checked_same raw good)
  ]
]

key_there :
    (key : Text)
    → (is_empty key || text_beq key default_key) ≡ false
    → (key ≢ []) × (key ≢ default_key)
key_there key h = (λ e. ground (arith, e), λ e. ground (arith, text_beq_iff key default_key, e))

-- In production settings that are accepted have an API key, which is not the default one, no wildcard
-- among the CORS origins, and no default credentials in the addresses of the databases.
pub validate-secure :
    (raw : Settings) {s : Settings}
    → validate raw ≡ ok s
    → is_production s ≡ true
    → (s.api_key ≢ [])
      × (s.api_key ≢ default_key)
      × (member (codes "*") s.cors_origins ≡ false)
      × (has_part default_credentials s.postgres_dsn ≡ false)
      × (has_part default_credentials s.redis_url ≡ false)
unfolding is_insecure
validate-secure raw {s} e p =
    let checked = validate-checked raw {s = s} e in
    let (some_key, other_key) = key_there s.api_key (ground arith) in
    (some_key, other_key, ground arith, ground arith, ground arith)
