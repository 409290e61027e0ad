-- ===== src/Persistence/SymbolIds.antt =====
-- The cache of `symbols.id` by base that `CandleSink` (src/orvixa/persistence/candles.py) and
-- `AnalyticsEngine` (src/orvixa/analytics/engine.py) keep, with the same `_resolve_symbol_id`. What the
-- database answers to `SymbolRepository.get_id` is an argument.
use orvixa.Prelude.{sym, ℕ, ◌≡◌, refl, Option, none, some, arith}
use orvixa.Prelude.Eq.{Text, text_eq, text_beq_iff}
use orvixa.Prelude.Dict.{Dict, lookup, insert, lookup-insert}
use orvixa.Prelude.Result.{Result, ok, raised}

abbrev pub Repository : Type 0
Repository = Text → Result (Option ℕ)

remember : Text → Dict Text ℕ → Result (Option ℕ) → Result (Option ℕ) × Dict Text ℕ
remember base ids (ok (some id)) = (ok (some id), insert base id ids)
remember base ids r = (r, ids)

resolve : Repository → Text → Dict Text ℕ → Option ℕ → Result (Option ℕ) × Dict Text ℕ
resolve get_id base ids none = remember base ids (get_id base)
resolve get_id base ids (some id) = (ok (some id), ids)

unfoldable pub resolve_symbol_id : Repository → Text → Dict Text ℕ → Result (Option ℕ) × Dict Text ℕ
unfolding resolve remember
resolve_symbol_id get_id base ids = resolve get_id base ids (lookup base ids)

-- Every cached id is the one that the database gives.
pub record IsCacheOf (get_id : Repository) (ids : Dict Text ℕ) : Type 0 where
  pub cached : (base : Text) (id : ℕ) → lookup base ids ≡ some id → get_id base ≡ ok (some id)

remember-IsCacheOf :
    (get_id : Repository) (base : Text) (ids : Dict Text ℕ) (r : Result (Option ℕ))
    → get_id base ≡ r
    → IsCacheOf get_id ids
    → IsCacheOf get_id (remember base ids r).1
unfolding remember
remember-IsCacheOf get_id base ids (ok (some id)) e h = record {
  cached = λ other id' l.
      ground (arith, lookup-insert base other id ids, text_beq_iff base other, h.cached other id');
}
remember-IsCacheOf get_id base ids (ok none) e h = h
remember-IsCacheOf get_id base ids (raised x) e h = h

remember-fst :
    (base : Text) (ids : Dict Text ℕ) (r : Result (Option ℕ)) → (remember base ids r).0 ≡ r
unfolding remember
remember-fst base ids (ok (some id)) = refl
remember-fst base ids (ok none) = refl
remember-fst base ids (raised x) = refl

-- With a cache of what the database gives, the answer is that of the database, and the cache stays one.
pub resolve_symbol_id_cached :
    (get_id : Repository) (base : Text) (ids : Dict Text ℕ)
    → IsCacheOf get_id ids
    → let (answer, ids') = resolve_symbol_id get_id base ids in
      (answer ≡ get_id base) × IsCacheOf get_id ids'
unfolding resolve_symbol_id
resolve_symbol_id_cached get_id base ids h = go (lookup base ids) refl
  where
    go :
        (o : Option ℕ)
        → lookup base ids ≡ o
        → let (answer, ids') = resolve get_id base ids o in
          (answer ≡ get_id base) × IsCacheOf get_id ids'
    go none e = (
      remember-fst base ids (get_id base),
      remember-IsCacheOf get_id base ids (get_id base) refl h,
    )
    go (some id) e = (sym (h.cached base id e), h)
