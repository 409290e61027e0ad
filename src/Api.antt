-- ===== src/Api.antt =====
-- The HTTP API (src/orvixa/api/app.py, src/orvixa/api/auth.py). What the database answers is an
-- argument, and a record of it is any value.
pub mod Guarded
use orvixa.Prelude.{ℕ, Bool, true, false, List, [], ◌∷◌, Option, none, some, if◌then◌else◌}
use orvixa.Prelude.Eq.{Text, text_beq}
use orvixa.Prelude.Result.{Result, ok, raised}
use orvixa.Config.{Settings, is_empty}

-- `_check` of `require_api_key`, for the header.
unfoldable pub allows : Settings → Option Text → Bool
allows s none = is_empty s.api_key
allows s (some key) = if is_empty s.api_key then true else text_beq key s.api_key

-- A request: `GET` of a route of `create_app`, of a page that FastAPI serves with its default arguments
-- (`/openapi.json`, `/docs` with its redirect, `/redoc`), or anything that no route matches.
pub data Request : Type 0 where
  health symbols documentation unmatched : Request
  regime : Text → Request

-- What a response holds: its status, and the body of a success. The bodies of FastAPI's own pages and
-- its answer to what no route matches are left out.
pub data Response {ℓ} (R : Type ℓ) : Type ℓ where
  alive : Response R
  listed : List R → Response R
  regime_of : Text → Option R → Response R
  described no_route : Response R
  unauthorized not_found failed : Response R

-- The answers of `get_id`, `list_all` and `get_recent(limit=1)`.
pub record Database {ℓ} (R : Type ℓ) : Type ℓ where
  pub get_id : Text → Result (Option ℕ)
  pub list_all : Result (List R)
  pub get_recent : Result (List R)

module _ {ℓ} {R : Type ℓ} where
  abbrev first_of : List R → Option R
  first_of [] = none
  first_of (r ∷ _) = some r

  list_symbols : Result (List R) → Response R
  list_symbols (ok rows) = listed rows
  list_symbols (raised e) = failed

  latest : Text → Result (List R) → Response R
  latest symbol (ok rows) = regime_of symbol (first_of rows)
  latest symbol (raised e) = failed

  get_regime : Database R → Text → Result (Option ℕ) → Response R
  unfolding latest
  get_regime db symbol (raised e) = failed
  get_regime db symbol (ok none) = not_found
  get_regime db symbol (ok (some id)) = latest symbol db.get_recent

  -- The routes of `create_app` and those of FastAPI, which ask for no key, for the header `X-API-Key`.
  unfoldable pub handle : Settings → Database R → Option Text → Request → Response R
  unfolding allows list_symbols get_regime
  handle s db key health = alive
  handle s db key documentation = described
  handle s db key unmatched = no_route
  handle s db key symbols = if allows s key then list_symbols db.list_all else unauthorized
  handle s db key (regime symbol) =
      if allows s key then get_regime db symbol (db.get_id symbol) else unauthorized
