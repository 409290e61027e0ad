-- ===== src/Feeds/Normalize/Rows.antt =====
-- Which elements of a ticker array become rows.
use orvixa.Prelude.{inr, inl, All, ◌≡◌, refl, true, List, [], ◌∷◌, ◌++◌}
use orvixa.Prelude.Float.{Float}
use orvixa.Prelude.Eq.{text_eq}
use orvixa.Prelude.Result.{Result-cases, Error, Result, ok, raised, attribute_error}
use orvixa.Feeds.Base.{TickerRow}
use orvixa.Feeds.Normalize.{
  some, codes, lookup, Text, Dict, Value, text, number, truth, other, object, to_float, to_symbol,
  field, Item, row_of, is_skipped, prepend, miniticker_array_to_rows,
}

module _ {ℓ} {F : Type ℓ} ⦃f : Float F⦄ where
  -- The rows of the elements that convert.
  abbrev pub converted : Result (TickerRow F) → List (TickerRow F)
  converted (ok row) = row ∷ []
  converted (raised _) = []

  abbrev pub all_converted : List (Item F) → List (TickerRow F)
  all_converted [] = []
  all_converted (item ∷ items) = converted (row_of item) ++ all_converted items

  -- An element that converts, or that is skipped.
  abbrev pub IsTolerated : Item F → Type ℓ
  IsTolerated item = (e : Error) → row_of item ≡ raised e → is_skipped e ≡ true

  -- If every element converts or raises one of the listed exceptions, the conversion returns the rows of
  -- those that convert, in order.
  pub rows-eq-converted :
      (items : List (Item F))
      → All IsTolerated items
      → miniticker_array_to_rows items ≡ ok (all_converted items)
  unfolding miniticker_array_to_rows
  rows-eq-converted [] h = refl
  rows-eq-converted (item ∷ items) h = elim (Result-cases (row_of item)) [
    | inl (row, e) ↦ rw (e, rows-eq-converted items h.1)
    | inr (x, e) ↦ rw (e, h.0 x e, rows-eq-converted items h.1)
  ]

  -- A value that is no text.
  unfoldable pub IsNoText : Value F → Type 0
  IsNoText (text _) = ⊥
  IsNoText _ = Unit

  to_symbol_no_text : (v : Value F) → IsNoText v → to_symbol v ≡ raised attribute_error
  unfolding to_symbol IsNoText
  to_symbol_no_text (text t) h = absurd h
  to_symbol_no_text (number x) h = refl
  to_symbol_no_text (truth b) h = refl
  to_symbol_no_text other h = refl

  -- An object whose open and close convert and whose symbol is no text.
  pub record HasNoSymbol (d : Dict Text (Value F)) : Type ℓ where
    pub open_value : Value F
    pub close_value : Value F
    pub symbol_value : Value F
    pub open_price : F
    pub last_price : F
    pub open_there : lookup (codes "o") d ≡ some open_value
    pub close_there : lookup (codes "c") d ≡ some close_value
    pub symbol_there : lookup (codes "s") d ≡ some symbol_value
    pub open_converts : to_float open_value ≡ ok open_price
    pub close_converts : to_float close_value ≡ ok last_price
    pub no_text : IsNoText symbol_value

  row_of_no_symbol :
      (d : Dict Text (Value F)) → HasNoSymbol d → row_of (object d) ≡ raised attribute_error
  unfolding row_of field
  row_of_no_symbol d h =
      rw
        (
          h.open_there,
          h.open_converts,
          h.close_there,
          h.close_converts,
          h.symbol_there,
          to_symbol_no_text h.symbol_value h.no_text,
        )
        refl

  stopped_at :
      (before : List (Item F)) (item : Item F) (after : List (Item F))
      → All IsTolerated before
      → row_of item ≡ raised attribute_error
      → miniticker_array_to_rows (before ++ item ∷ after) ≡ raised attribute_error
  unfolding miniticker_array_to_rows
  stopped_at [] item after h e = rw (e, prepend)
  stopped_at (b ∷ before) item after h e = elim (Result-cases (row_of b)) [
    | inl (row, p) ↦ rw (p, stopped_at before item after h.1 e)
    | inr (x, p) ↦ rw (p, h.0 x p, stopped_at before item after h.1 e)
  ]

  -- An object whose open and close convert to numbers and whose symbol is there and no text stops the
  -- conversion of the whole array with an `AttributeError`, if the elements before it are converted or
  -- skipped.
  pub rows_attribute_error :
      (before : List (Item F)) (d : Dict Text (Value F)) (after : List (Item F))
      → All IsTolerated before
      → HasNoSymbol d
      → miniticker_array_to_rows (before ++ object d ∷ after) ≡ raised attribute_error
  rows_attribute_error before d after h n =
      stopped_at before (object d) after h (row_of_no_symbol d n)
