-- ===== src/Analytics/Indicators/WarmUp.antt =====
-- When `WilderRSI` and `WilderATR` have warmed up.
use orvixa.Prelude.{
  subst, ◌∙◌, ℕ, suc, ◌+◌, ◌≤◌, ◌≡◌, refl, inl, inr, Bool, true, false, List, [], ◌∷◌, ◌++◌, Option,
  none, some, length, length-append, leb, ltb, arith, Bool-cases,
}
use orvixa.Prelude.Float.{Float}
use orvixa.Analytics.Indicators.{
  WilderRsi, Averages, new_rsi, rsi_update, rsi_from, rsi_change, valued,
}

abbrev pub is_some {ℓ} : {A : Type ℓ} → Option A → Bool
is_some none = false
is_some (some a) = true

module _ {ℓ} {F : Type ℓ} ⦃f : Float F⦄ (period : ℕ) where
  -- The updates with a list of closes, the results dropped but for the last.
  pub rsi_after : WilderRsi F → List F → WilderRsi F
  rsi_after r [] = r
  rsi_after r (c ∷ closes) = rsi_after (rsi_update period r c).1 closes

  -- After n changes of the close.
  record IsSeeded (n : ℕ) (r : WilderRsi F) : Type ℓ where
    started : is_some r.prev_close ≡ true
    averaged : is_some r.averages ≡ leb period n
    seeded : leb period n ≡ false → length r.seed_gains ≡ n

  change-IsSeeded :
      (n : ℕ) (gain loss : F) (averages : Option (Averages F)) (r : WilderRsi F)
      → r.averages ≡ averages
      → IsSeeded n r
      → let (value, r') = rsi_change period gain loss averages r in
        IsSeeded (suc n) r' × (is_some value ≡ leb period (suc n))
  unfolding rsi_change valued
  change-IsSeeded n gain loss none r e h =
      let grown = length-append r.seed_gains (gain ∷ []) in
      elim (Bool-cases (ltb (length (r.seed_gains ++ gain ∷ [])) period)) [
        | inl seeding ↦ rw seeding (
          record {
            started = h.started;
            averaged = ground (arith, grown, e, h.averaged, h.seeded);
            seeded = λ l. ground (arith, grown, e, h.averaged, h.seeded);
          },
          ground (arith, grown, e, h.averaged, h.seeded),
        )
        | inr full ↦ rw full (
          record {
            started = h.started;
            averaged = ground (arith, grown, e, h.averaged, h.seeded);
            seeded = λ l. absurd (ground (arith, grown, e, h.averaged, h.seeded));
          },
          ground (arith, grown, e, h.averaged, h.seeded),
        )
      ]
  change-IsSeeded n gain loss (some a) r e h = (
    record {
      started = h.started;
      averaged = ground (arith, e, h.averaged);
      seeded = λ l. absurd (ground (arith, e, h.averaged));
    },
    ground (arith, e, h.averaged),
  )

  from-IsSeeded :
      (n : ℕ) (close : F) (prev : Option F) (r : WilderRsi F)
      → is_some prev ≡ true
      → IsSeeded n r
      → let (value, r') = rsi_from period close prev r in
        IsSeeded (suc n) r' × (is_some value ≡ leb period (suc n))
  unfolding rsi_from
  from-IsSeeded n close none r p h = absurd (ground arith)
  from-IsSeeded n close (some prev) r p h =
      let moved : WilderRsi F = record r { prev_close = some close } in
      change-IsSeeded n _ _ r.averages moved refl
        (record { started = refl; averaged = h.averaged; seeded = h.seeded })

  after-IsSeeded :
      (closes : List F) (n : ℕ) (r : WilderRsi F)
      → IsSeeded n r
      → IsSeeded (length closes + n) (rsi_after r closes)
  unfolding rsi_after rsi_update
  after-IsSeeded [] n r h = subst (λ k. IsSeeded k r) (omega arith) h
  after-IsSeeded (c ∷ closes) n r h =
      let next = (rsi_update period r c).1 in
      subst (λ k. IsSeeded k (rsi_after next closes)) (omega arith)
        (after-IsSeeded closes (suc n) next (from-IsSeeded n c r.prev_close r h.started h).0)

  -- For a period of at least 1, after a first close and n more, the update with the next close returns
  -- an RSI exactly if n + 1 is at least the period.
  pub rsi_warm_up :
      (first close : F) (closes : List F)
      → 1 ≤ period
      → let r = rsi_after new_rsi (first ∷ closes) in
        is_some (rsi_update period r close).0 ≡ leb period (suc (length closes))
  unfolding rsi_after rsi_update rsi_from
  rsi_warm_up first close closes le =
      let start = (rsi_update period new_rsi first).1 in
      let started : IsSeeded 0 start = record {
        started = refl;
        averaged = ground arith;
        seeded = λ l. refl;
      } in
      let r = rsi_after start closes in
      let h = after-IsSeeded closes 0 start started in
      (from-IsSeeded (length closes + 0) close r.prev_close r h.started h).1 ∙ ground arith
