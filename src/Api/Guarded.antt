-- ===== src/Api/Guarded.antt =====
-- Who can read the data.
use orvixa.Prelude.{Bool, if◌then◌else◌, ◌≡◌, ◌≢◌, refl, true, false, Option, none, some, arith}
use orvixa.Prelude.Eq.{Text, text_beq_iff}
use orvixa.Prelude.Result.{ok}
use orvixa.Config.{Settings, is_empty, is_production, default_key, validate}
use orvixa.Config.Security.{validate-secure}
use orvixa.Api.{
  ◌∷◌, [], allows, Request, health, symbols, regime, documentation, unmatched, unauthorized, listed,
  regime_of, not_found, failed, Response, Database, handle,
}

allows_key :
    (s : Settings) (key : Option Text)
    → is_empty s.api_key ≡ false
    → allows s key ≡ true
    → key ≡ some s.api_key
unfolding allows
allows_key s none e h = absurd (ground arith)
allows_key s (some key) e h = ground (arith, text_beq_iff key s.api_key)

nonempty : (key : Text) → key ≢ [] → is_empty key ≡ false
nonempty [] h = absurd (h refl)
nonempty (c ∷ key) h = refl

module _ {ℓ} {R : Type ℓ} where
  -- A response that rests on what the database answers.
  unfoldable pub IsFromDatabase : Response R → Type 0
  IsFromDatabase (listed _) = Unit
  IsFromDatabase (regime_of _ _) = Unit
  IsFromDatabase not_found = Unit
  IsFromDatabase failed = Unit
  IsFromDatabase _ = ⊥

  refused :
      (allowed : Bool) (answer : Response R)
      → IsFromDatabase (if allowed then answer else unauthorized)
      → allowed ≡ true
  unfolding IsFromDatabase
  refused true answer h = refl
  refused false answer h = absurd h

  handled_allows :
      (s : Settings) (db : Database R) (key : Option Text) (request : Request)
      → IsFromDatabase (handle s db key request)
      → allows s key ≡ true
  unfolding handle IsFromDatabase
  handled_allows s db key health h = absurd h
  handled_allows s db key documentation h = absurd h
  handled_allows s db key unmatched h = absurd h
  handled_allows s db key symbols h = refused (allows s key) _ h
  handled_allows s db key (regime symbol) h = refused (allows s key) _ h

  -- Under accepted settings for production, a request whose response rests on the database (its records,
  -- that it does not know a symbol, or that it raised) bears the configured key, and this key is neither
  -- empty nor the default one.
  pub handle_requires_key :
      (raw s : Settings) (db : Database R) (key : Option Text) (request : Request)
      → validate raw ≡ ok s
      → is_production s ≡ true
      → IsFromDatabase (handle s db key request)
      → (key ≡ some s.api_key) × (s.api_key ≢ []) × (s.api_key ≢ default_key)
  handle_requires_key raw s db key request e p h =
      let (some_key, other_key, _, _, _) = validate-secure raw {s = s} e p in
      (
        allows_key s key (nonempty s.api_key some_key) (handled_allows s db key request h),
        some_key,
        other_key,
      )
