-- ===== src/Backtest/RegimeMetrics/Grouped.antt =====
-- The groups that `compute_regime_metrics` makes of the signals, against a filter of them.
use orvixa.Prelude.{
  subst, ℕ, suc, ◌≡◌, refl, sym, ap, ◌∙◌, Bool, false, ◌&&◌, List, [], ◌∷◌, ◌++◌, Option, none,
  some, get_elem?, Option-cases, append-nil, append_assoc, if◌then◌else◌, Bool-cases, inl, inr,
  arith,
}
use orvixa.Prelude.Eq.{Text, text_eq, pair_eq, ℕ_eq, text_beq, pair_beq, pair_beq_iff, text_beq_iff}
use orvixa.Prelude.Dict.{Dict, Distinct, lookup, insert, get_or}
use orvixa.Prelude.Result.{◌>>=◌, ok, ok-bind, index_error, or_raise, or_raise-ok}
use orvixa.Prelude.Entries.{insert-Distinct, get_or-insert, if-cons}
use orvixa.Backtest.Clusters.{ClusterTag, isolated, clustered}
use orvixa.Backtest.Metrics.{Captured}
use orvixa.Backtest.RegimeMetrics.{RegimeTag, Tagged, by_bucket_from}

-- How many of the signals are tagged as clustered.
unfoldable pub clustered_number {ℓ} : {F : Type ℓ} → Tagged F → ℕ
clustered_number [] = 0
clustered_number ((_, clustered) ∷ tagged) = suc (clustered_number tagged)
clustered_number ((_, isolated) ∷ tagged) = clustered_number tagged

-- Whether a regime is the one of the candle at the index, if there is an index and a candle.
abbrev pub regime_at : List RegimeTag → RegimeTag → Option ℕ → Bool
regime_at tags regime none = false
regime_at tags regime (some idx) = elim (get_elem? tags idx) [
  | none ↦ false
  | some tag ↦ pair_beq tag regime
]

module _ {ℓ} {F : Type ℓ} where
  -- Whether a signal has a type, and comes at the time of a candle with a regime.
  abbrev pub in_cell : Dict ℕ ℕ → List RegimeTag → RegimeTag → Text → Captured F → Bool
  in_cell times tags regime signal entry =
      regime_at tags regime (lookup entry.ts times) && text_beq entry.signal signal

  -- The signals of a cell with their cluster tags, in order.
  pub chosen : Dict ℕ ℕ → List RegimeTag → RegimeTag → Text → Tagged F → Tagged F
  chosen times tags regime signal [] = []
  chosen times tags regime signal ((entry, mark) ∷ tagged) =
      let rest = chosen times tags regime signal tagged in
      if in_cell times tags regime signal entry then (entry, mark) ∷ rest else rest

  unfoldable pub group : RegimeTag → Text → Dict RegimeTag (Dict Text (Tagged F)) → Tagged F
  group regime signal out = get_or signal [] (get_or regime [] out)

  group-insert :
      (bucket regime : RegimeTag) (entry_type signal : Text) (x : Captured F × ClusterTag)
      (out : Dict RegimeTag (Dict Text (Tagged F)))
      → let by_type = get_or bucket [] out in
        group regime signal
          (insert bucket (insert entry_type (get_or entry_type [] by_type ++ x ∷ []) by_type) out)
        ≡ group regime signal out
          ++ (if pair_beq bucket regime && text_beq entry_type signal then x ∷ [] else [])
  unfolding group
  group-insert bucket regime entry_type signal x out =
      let by_type = get_or bucket [] out in
      let inner = insert entry_type (get_or entry_type [] by_type ++ x ∷ []) by_type in
      ap (get_or signal []) (get_or-insert bucket regime inner [] out)
      ∙ elim (Bool-cases (pair_beq bucket regime)) [
        | inr other ↦ rw other (sym (append-nil _))
        | inl same ↦
            let equal : bucket ≡ regime = (pair_beq_iff bucket regime).0 same in
            rw same (
              get_or-insert entry_type signal (get_or entry_type [] by_type ++ x ∷ []) [] by_type
              ∙ elim (Bool-cases (text_beq entry_type signal)) [
                | inl same_type ↦
                    let equal_type : entry_type ≡ signal =
                      (text_beq_iff entry_type signal).0 same_type in
                    rw same_type (
                      ap (λ b. get_or entry_type [] (get_or b [] out) ++ x ∷ []) equal
                      ∙ ap (λ t. get_or t [] (get_or regime [] out) ++ x ∷ []) equal_type)
                | inr other_type ↦
                    rw other_type
                      (ap (λ b. get_or signal [] (get_or b [] out)) equal ∙ sym (append-nil _))
              ])
      ]

  -- The turn of the loop for a signal at no candle's time, and for one at a candle's time.
  step-unknown :
      (times : Dict ℕ ℕ) (tags : List RegimeTag) (entry : Captured F) (mark : ClusterTag)
      (tagged : Tagged F) (out : Dict RegimeTag (Dict Text (Tagged F)))
      → lookup entry.ts times ≡ none
      → by_bucket_from times tags ((entry, mark) ∷ tagged) out
        ≡ by_bucket_from times tags tagged out
  unfolding by_bucket_from
  step-unknown times tags entry mark tagged out q = rw (by_bucket_from, q) refl

  step-known :
      (times : Dict ℕ ℕ) (tags : List RegimeTag) (entry : Captured F) (mark : ClusterTag)
      (tagged : Tagged F) (out : Dict RegimeTag (Dict Text (Tagged F))) (idx : ℕ)
      → lookup entry.ts times ≡ some idx
      → by_bucket_from times tags ((entry, mark) ∷ tagged) out ≡ (
          or_raise index_error (get_elem? tags idx) >>= λ bucket. by_bucket_from times tags tagged (
            insert bucket
              (insert entry.signal
                (get_or entry.signal [] (get_or bucket [] out) ++ (entry, mark) ∷ [])
                (get_or bucket [] out))
              out))
  unfolding by_bucket_from
  step-known times tags entry mark tagged out idx q = rw (by_bucket_from, q) refl

  chosen-cons :
      (times : Dict ℕ ℕ) (tags : List RegimeTag) (entry : Captured F) (mark : ClusterTag)
      (tagged : Tagged F) (idx : ℕ) (bucket regime : RegimeTag) (signal : Text)
      → lookup entry.ts times ≡ some idx
      → get_elem? tags idx ≡ some bucket
      → chosen times tags regime signal ((entry, mark) ∷ tagged)
        ≡ (if pair_beq bucket regime && text_beq entry.signal signal
            then (entry, mark) ∷ []
            else [])
          ++ chosen times tags regime signal tagged
  unfolding chosen
  chosen-cons times tags entry mark tagged idx bucket regime signal q there =
      rw (q, regime_at, there)
        (if-cons (pair_beq bucket regime && text_beq entry.signal signal) (entry, mark) _)

  pub by_bucket_from-chosen :
      (times : Dict ℕ ℕ) (tags : List RegimeTag) (tagged : Tagged F)
      (out res : Dict RegimeTag (Dict Text (Tagged F))) (regime : RegimeTag) (signal : Text)
      → by_bucket_from times tags tagged out ≡ ok res
      → group regime signal res ≡ group regime signal out ++ chosen times tags regime signal tagged
  unfolding by_bucket_from chosen
  by_bucket_from-chosen times tags [] out res regime signal h =
      ap (group regime signal) (ground arith) ∙ sym (append-nil _)
  by_bucket_from-chosen times tags ((entry, mark) ∷ tagged) out res regime signal h =
      elim (Option-cases (lookup entry.ts times)) [
        | inl q ↦
            let next =
              by_bucket_from-chosen times tags tagged out res regime signal
                (sym (step-unknown times tags entry mark tagged out q) ∙ h) in
            rw q next
        | inr (idx, q) ↦
            let (bucket, found, made) =
              ok-bind (or_raise index_error (get_elem? tags idx))
                (sym (step-known times tags entry mark tagged out idx q) ∙ h) in
            let there = or_raise-ok index_error (get_elem? tags idx) found in
            by_bucket_from-chosen times tags tagged _ res regime signal made
            ∙ ap (λ g. g ++ chosen times tags regime signal tagged)
                (group-insert bucket regime entry.signal signal (entry, mark) out)
            ∙ append_assoc (group regime signal out) _ _
            ∙ ap (λ g. group regime signal out ++ g)
                (sym (chosen-cons times tags entry mark tagged idx bucket regime signal q there))
      ]

  pub by_bucket_from-Distinct :
      (times : Dict ℕ ℕ) (tags : List RegimeTag) (tagged : Tagged F)
      (out res : Dict RegimeTag (Dict Text (Tagged F)))
      → by_bucket_from times tags tagged out ≡ ok res
      → Distinct out
      → Distinct res
  unfolding by_bucket_from
  by_bucket_from-Distinct times tags [] out res h d = subst Distinct (ground arith) d
  by_bucket_from-Distinct times tags ((entry, mark) ∷ tagged) out res h d =
      elim (Option-cases (lookup entry.ts times)) [
        | inl q ↦
            by_bucket_from-Distinct times tags tagged out res
              (sym (step-unknown times tags entry mark tagged out q) ∙ h) d
        | inr (idx, q) ↦
            let (bucket, found, made) =
              ok-bind (or_raise index_error (get_elem? tags idx))
                (sym (step-known times tags entry mark tagged out idx q) ∙ h) in
            by_bucket_from-Distinct times tags tagged _ res made (insert-Distinct bucket _ out d)
      ]
