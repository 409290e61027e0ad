-- ===== src/Persistence/Candles/Rows.antt =====
-- Which rows reach the batch writer.
use orvixa.Prelude.{
  subst, inr, inl, ℕ, ◌≡◌, refl, sym, Option, none, some, List, [], ◌∷◌, ◌++◌, append-nil,
  append_assoc, arith, if◌then◌else◌, Bool-cases,
}
use orvixa.Prelude.Eq.{Text}
use orvixa.Prelude.Result.{Result, ok, raised}
use orvixa.Feeds.Base.{Candle}
use orvixa.Persistence.BatchWriter
use orvixa.Persistence.BatchWriter.{BatchWriter}
use orvixa.Persistence.SymbolIds.{
  Repository, resolve_symbol_id, IsCacheOf, resolve_symbol_id_cached,
}
use orvixa.Persistence.Candles.{CandleRow, CandleSink, row_of, write, handle_candle, handle_candles}

module _ {ℓ} {F : Type ℓ} where
  abbrev row_if_known : Text → Candle F → Result (Option ℕ) → List (CandleRow F)
  row_if_known interval c (ok (some id)) = row_of interval id c ∷ []
  row_if_known interval c _ = []

  -- The rows of the closed candles whose symbol the database knows.
  pub rows_of : Repository → Text → List (Candle F) → List (CandleRow F)
  rows_of get_id interval [] = []
  rows_of get_id interval (c ∷ candles) =
      (if c.closed then row_if_known interval c (get_id c.symbol) else [])
      ++ rows_of get_id interval candles

  write-buffer :
      (c : Candle F) (id : Result (Option ℕ)) (s : CandleSink F)
      → ((write c id s).1.batch_writer.buffer
          ≡ s.batch_writer.buffer ++ row_if_known s.interval c id)
        × ((write c id s).1.symbol_ids ≡ s.symbol_ids)
        × ((write c id s).1.interval ≡ s.interval)
  unfolding write BatchWriter.add
  write-buffer c (ok (some id)) s = (refl, refl, refl)
  write-buffer c (ok none) s = (sym (append-nil _), refl, refl)
  write-buffer c (raised e) s = (sym (append-nil _), refl, refl)

  -- One candle appends its row, if it is closed and known, and keeps the cache.
  abbrev HasHandled : Repository → Candle F → CandleSink F → CandleSink F → Type ℓ
  HasHandled get_id c s t =
      (t.batch_writer.buffer
        ≡ s.batch_writer.buffer
          ++ (if c.closed then row_if_known s.interval c (get_id c.symbol) else []))
      × (t.interval ≡ s.interval)
      × IsCacheOf get_id t.symbol_ids

  handle_candle_row :
      (get_id : Repository) (c : Candle F) (s : CandleSink F)
      → IsCacheOf get_id s.symbol_ids
      → HasHandled get_id c s (handle_candle get_id c s).1
  unfolding handle_candle
  handle_candle_row get_id c s h =
      let (id, ids) = resolve_symbol_id get_id c.symbol s.symbol_ids in
      let (same, cache) = resolve_symbol_id_cached get_id c.symbol s.symbol_ids h in
      let resolved : CandleSink F = record s { symbol_ids = ids } in
      let (rows, kept, interval) = write-buffer c id resolved in
      elim (Bool-cases c.closed) [
        | inl closed ↦ (ground (arith), ground arith, subst (IsCacheOf get_id) (ground arith) cache)
        | inr open_candle ↦ (
          rw open_candle (sym (append-nil s.batch_writer.buffer)),
          ground arith,
          subst (IsCacheOf get_id) (ground arith) h,
        )
      ]

  -- With a cache of what the database gives, handling candles one after the other adds to the buffer of
  -- the batch writer the rows of the closed candles whose symbol the database knows, in order, and
  -- nothing else; a symbol that the database does not know, or a query that raises, drops its candle only.
  pub handle_candles_rows :
      (get_id : Repository) (candles : List (Candle F)) (s : CandleSink F)
      → IsCacheOf get_id s.symbol_ids
      → (handle_candles get_id candles s).batch_writer.buffer
        ≡ s.batch_writer.buffer ++ rows_of get_id s.interval candles
  unfolding handle_candles rows_of
  handle_candles_rows get_id [] s h = sym (append-nil s.batch_writer.buffer)
  handle_candles_rows get_id (c ∷ candles) s h =
      let (rows, interval, cache) = handle_candle_row get_id c s h in
      let ih = handle_candles_rows get_id candles (handle_candle get_id c s).1 cache in
      ground (
        arith,
        append_assoc s.batch_writer.buffer
            (if c.closed then row_if_known s.interval c (get_id c.symbol) else [])
            (rows_of get_id s.interval candles),
      )
