-- ===== src/Backfill/Batches.antt =====
-- The batches of the loader against an insertion of all rows at once.
use orvixa.Prelude.{
  Option-cases, none, some, ◌⊎◌, subst, ap, sym, ◌∙◌, ℕ, ◌+◌, ◌≡◌, ◌≤◌, ◌<◌, refl, true, false,
  List, [], ◌∷◌, ◌++◌, concat, concat-append, append-nil, append_assoc, length, length-append, All,
  All-append, leb, arith, Bool-cases, inl, inr,
}
use orvixa.Prelude.Eq.{Text}
use orvixa.Prelude.Dict.{Dict}
use orvixa.Prelude.Result.{Result, ok, raised, Error, ◌>>=◌, Result-cases}
use orvixa.Prelude.Float.{Float}
use orvixa.Persistence.Candles.{CandleRow}
use orvixa.Backfill.{Refusal, Load, insert_rest, load_rows}

module _ {ℓ} {F : Type ℓ} ⦃f : Float F⦄ (refusal : Refusal F) (batch_size : ℕ)
    (convert : Dict Text Text → Result (CandleRow F)) where
  -- The abstract loader: it converts the rows in order, until one raises.
  pub converted : List (Dict Text Text) → Result (List (CandleRow F))
  converted [] = ok []
  converted (row ∷ rows) = do r ← convert row; rest ← converted rows; ok (r ∷ rest)

  abbrev pub IsBatch : List (CandleRow F) → Type 0
  IsBatch batch = (0 < length batch) × (length batch ≤ batch_size)

  -- What a load that returns has inserted: all rows, in order, in batches of at most the batch size,
  -- none of them empty; and it returns their number.
  pub record Inserts (rows : List (CandleRow F)) (l : Load F) : Type ℓ where
    pub returned : l.0 ≡ ok (length rows)
    pub complete : concat l.1 ≡ rows
    pub batched : All IsBatch l.1

  -- What a load that raises has inserted by then: batches.
  pub record Aborts (x : Error) (l : Load F) : Type ℓ where
    pub aborted : l.0 ≡ raised x
    pub batched : All IsBatch l.1

  -- A load that ends with what `insert_batch` raised for a batch of it.
  pub record Refused (l : Load F) : Type ℓ where
    pub batch : List (CandleRow F)
    pub error : Error
    pub refused : refusal batch ≡ some error
    pub refused_batch : IsBatch batch
    pub aborted : l.0 ≡ raised error
    pub batched : All IsBatch l.1

  -- What the rows that were read before and the conversion of those to come ask of a load.
  pub Converts : List (CandleRow F) → Result (List (CandleRow F)) → Load F → Type ℓ
  Converts before (ok rows) l = Inserts (before ++ rows) l
  Converts before (raised x) l = Aborts x l

  -- A load does that, or `insert_batch` raises on the way.
  abbrev pub Refines : List (CandleRow F) → Result (List (CandleRow F)) → Load F → Type ℓ
  Refines before rows l = Converts before rows l ⊎ Refused l

  -- What holds between two rows of the file: the batch is not full, and the counter is the number of
  -- rows that were inserted.
  record Between (written : ℕ) (batch : List (CandleRow F)) (inserted : List (List (CandleRow F)))
      : Type ℓ where
    counted : written ≡ length (concat inserted)
    short : length batch < batch_size
    batched : All IsBatch inserted

  insert_rest-Inserts :
      (written : ℕ) (batch : List (CandleRow F)) (inserted : List (List (CandleRow F)))
      → Between written batch inserted
      → Inserts (concat inserted ++ batch) (insert_rest refusal written batch inserted)
        ⊎ Refused (insert_rest refusal written batch inserted)
  unfolding insert_rest
  insert_rest-Inserts written [] inserted h =
      rw (append-nil (concat inserted))
        (inl (record { returned = ap ok h.counted; complete = refl; batched = h.batched }))
  insert_rest-Inserts written (r ∷ batch) inserted h =
      let size : IsBatch (r ∷ batch) = (omega arith, omega (arith, h.short)) in
      elim (Option-cases (refusal (r ∷ batch))) [
        | inr (x, q) ↦
            rw (insert_rest, q)
              (inr (record {
                batch = r ∷ batch;
                error = x;
                refused = q;
                refused_batch = size;
                aborted = refl;
                batched = h.batched;
              }))
        | inl q ↦
            rw (insert_rest, q)
              (inl (record {
                returned =
                    ap ok (omega (arith, h.counted, length-append (concat inserted) (r ∷ batch)));
                complete =
                    concat-append inserted ((r ∷ batch) ∷ [])
                    ∙ ap (λ b. concat inserted ++ b) (append-nil (r ∷ batch));
                batched = All-append IsBatch inserted ((r ∷ batch) ∷ []) h.batched (size, tt);
              }))
      ]

  -- After a row that fills the batch, and after one that does not.
  flushed :
      (written : ℕ) (batch : List (CandleRow F)) (inserted : List (List (CandleRow F)))
      (r : CandleRow F)
      → 0 < batch_size
      → Between written batch inserted
      → Between (written + length (batch ++ r ∷ [])) [] (inserted ++ (batch ++ r ∷ []) ∷ [])
  flushed written batch inserted r pos h =
      let grown = batch ++ r ∷ [] in
      let size = length-append batch (r ∷ []) in
      let whole =
        concat-append inserted (grown ∷ []) ∙ ap (λ b. concat inserted ++ b) (append-nil grown) in
      record {
        counted = omega (arith, h.counted, ap length whole, length-append (concat inserted) grown);
        short = pos;
        batched =
            All-append IsBatch inserted ((batch ++ r ∷ []) ∷ []) h.batched
              ((omega (arith, size), omega (arith, size, h.short)), tt);
      }

  filled :
      (written : ℕ) (batch : List (CandleRow F)) (inserted : List (List (CandleRow F)))
      (r : CandleRow F)
      → Between written batch inserted
      → length (batch ++ r ∷ []) < batch_size
      → Between written (batch ++ r ∷ []) inserted
  filled written batch inserted r h short = record {
    counted = h.counted;
    short = short;
    batched = h.batched;
  }

  -- A row that was read is one of those before.
  shifted-Converts :
      (before : List (CandleRow F)) (r : CandleRow F) (rest : Result (List (CandleRow F)))
      (l : Load F)
      → Converts (before ++ r ∷ []) rest l
      → Converts before (rest >>= λ rows. ok (r ∷ rows)) l
  unfolding Converts
  shifted-Converts before r (ok rows) l h =
      subst (λ all. Inserts all l) (append_assoc before (r ∷ []) rows) h
  shifted-Converts before r (raised x) l h = h

  shifted :
      (before : List (CandleRow F)) (r : CandleRow F) (rest : Result (List (CandleRow F)))
      (l : Load F)
      → Refines (before ++ r ∷ []) rest l
      → Refines before (rest >>= λ rows. ok (r ∷ rows)) l
  shifted before r rest l (inl h) = inl (shifted-Converts before r rest l h)
  shifted before r rest l (inr h) = inr h

  all_inserted :
      (batch : List (CandleRow F)) (r : CandleRow F) (inserted : List (List (CandleRow F)))
      → concat (inserted ++ (batch ++ r ∷ []) ∷ []) ≡ (concat inserted ++ batch) ++ r ∷ []
  all_inserted batch r inserted =
      concat-append inserted ((batch ++ r ∷ []) ∷ [])
      ∙ ap (λ b. concat inserted ++ b) (append-nil (batch ++ r ∷ []))
      ∙ sym (append_assoc (concat inserted) batch (r ∷ []))

  -- One row of the loop, which fills the batch or does not.
  load-full :
      (row : Dict Text Text) (rows : List (Dict Text Text)) (r : CandleRow F) (written : ℕ)
      (batch : List (CandleRow F)) (inserted : List (List (CandleRow F)))
      → convert row ≡ ok r
      → leb batch_size (length (batch ++ r ∷ [])) ≡ true
      → refusal (batch ++ r ∷ []) ≡ none
      → load_rows refusal batch_size convert (row ∷ rows) written batch inserted
        ≡ load_rows refusal batch_size convert rows
            (written + length (batch ++ r ∷ []))
            []
            (inserted ++ (batch ++ r ∷ []) ∷ [])
  unfolding load_rows
  load-full row rows r written batch inserted q full n = rw (load_rows, q, full, n) refl

  load-refused :
      (row : Dict Text Text) (rows : List (Dict Text Text)) (r : CandleRow F) (written : ℕ)
      (batch : List (CandleRow F)) (inserted : List (List (CandleRow F))) (x : Error)
      → convert row ≡ ok r
      → leb batch_size (length (batch ++ r ∷ [])) ≡ true
      → refusal (batch ++ r ∷ []) ≡ some x
      → load_rows refusal batch_size convert (row ∷ rows) written batch inserted
        ≡ (raised x, inserted)
  unfolding load_rows
  load-refused row rows r written batch inserted x q full n = rw (load_rows, q, full, n) refl

  load-partial :
      (row : Dict Text Text) (rows : List (Dict Text Text)) (r : CandleRow F) (written : ℕ)
      (batch : List (CandleRow F)) (inserted : List (List (CandleRow F)))
      → convert row ≡ ok r
      → leb batch_size (length (batch ++ r ∷ [])) ≡ false
      → load_rows refusal batch_size convert (row ∷ rows) written batch inserted
        ≡ load_rows refusal batch_size convert rows written (batch ++ r ∷ []) inserted
  unfolding load_rows
  load-partial row rows r written batch inserted q partial = rw (load_rows, q, partial) refl

  taken :
      (row : Dict Text Text) (rows : List (Dict Text Text)) (r : CandleRow F)
      (before : List (CandleRow F)) (l next : Load F)
      → convert row ≡ ok r
      → l ≡ next
      → Refines (before ++ r ∷ []) (converted rows) next
      → Refines before (converted (row ∷ rows)) l
  unfolding converted
  taken row rows r before l next q same h = rw q (
      subst (Refines before (converted rows >>= λ rest. ok (r ∷ rest))) (sym same)
        (shifted before r (converted rows) next h))

  load_rows_between :
      (rows : List (Dict Text Text)) (written : ℕ) (batch : List (CandleRow F))
      (inserted : List (List (CandleRow F)))
      → 0 < batch_size
      → Between written batch inserted
      → Refines
          (concat inserted ++ batch)
          (converted rows)
          (load_rows refusal batch_size convert rows written batch inserted)
  unfolding load_rows converted Converts
  load_rows_between [] written batch inserted pos h =
      rw (append-nil (concat inserted ++ batch)) (insert_rest-Inserts written batch inserted h)
  load_rows_between (row ∷ rows) written batch inserted pos h = elim (Result-cases (convert row)) [
    | inr (x, q) ↦ rw (load_rows, q) (inl (record { aborted = refl; batched = h.batched }))
    | inl (r, q) ↦ elim (Bool-cases (leb batch_size (length (batch ++ r ∷ [])))) [
      | inl full ↦ elim (Option-cases (refusal (batch ++ r ∷ []))) [
        | inr (x, n) ↦
            let same = load-refused row rows r written batch inserted x q full n in
            let size = length-append batch (r ∷ []) in
            inr (record {
              batch = batch ++ r ∷ [];
              error = x;
              refused = n;
              refused_batch = (omega (arith, size), omega (arith, size, h.short));
              aborted = ap (λ l. l.0) same;
              batched = subst (λ l. All IsBatch l.1) (sym same) h.batched;
            })
        | inl n ↦
            let grown = batch ++ r ∷ [] in
            let next =
              load_rows_between rows (written + length grown) [] (inserted ++ grown ∷ []) pos
                (flushed written batch inserted r pos h) in
            taken row rows r (concat inserted ++ batch) _ _ q
              (load-full row rows r written batch inserted q full n)
              (subst
                (λ before. Refines before (converted rows) (
                  load_rows refusal batch_size convert rows (written + length grown) []
                    (inserted ++ grown ∷ [])))
                (append-nil _ ∙ all_inserted batch r inserted) next)
      ]
      | inr partial ↦
          let next =
            load_rows_between rows written (batch ++ r ∷ []) inserted pos
              (filled written batch inserted r h (ground arith)) in
          taken row rows r (concat inserted ++ batch) _ _ q
            (load-partial row rows r written batch inserted q partial)
            (subst
              (λ before.
                Refines before (converted rows)
                  (load_rows refusal batch_size convert rows written (batch ++ r ∷ []) inserted))
              (sym (append_assoc (concat inserted) batch (r ∷ []))) next)
    ]
  ]

  -- For a batch size of at least 1, a load does what the conversion of all rows of the file, in order,
  -- asks for, unless `insert_batch` raises for a batch, which the load then raises: if every row converts,
  -- it inserts exactly these rows, in order, in batches that are not empty and at most of the batch size,
  -- and returns their number; and if one does not, the load raises what the first such row raises. In
  -- every case the batches that were inserted are not empty and at most of the batch size.
  pub load_rows-Refines :
      (rows : List (Dict Text Text))
      → 0 < batch_size
      → Refines [] (converted rows) (load_rows refusal batch_size convert rows 0 [] [])
  load_rows-Refines rows pos =
      load_rows_between rows 0 [] [] pos (record { counted = refl; short = pos; batched = tt })
