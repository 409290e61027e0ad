-- ===== src/Backtest/Clusters/Within.antt =====
-- Which signals are tagged as clustered.
use orvixa.Prelude.{
  ℕ, zero, suc, ◌+◌, ◌*◌, ◌≤◌, ◌<◌, ◌≡◌, ◌↔◌, inl, inr, refl, ◌∙◌, true, List, [], ◌∷◌, ◌++◌,
  append-nil, append_assoc, some, get_elem?, take, Bool-cases, if◌then◌else◌, arith,
}
use orvixa.Prelude.Eq.{text_beq_iff}
use orvixa.Backtest.Clusters.{
  Entry, clustered, isolated, is_within, any_within, tags_from, compute_cluster_tags,
}

-- An earlier entry of the same type, before it and at most the window before it.
pub record HasPrior (window_ms : ℕ) (priors : List Entry) (entry : Entry) : Type 0 where
  pub at : ℕ
  pub prior : Entry
  pub stands : get_elem? priors at ≡ some prior
  pub same_type : prior.signal ≡ entry.signal
  pub earlier : prior.ts < entry.ts
  pub near : entry.ts ≤ prior.ts + window_ms

any_within-HasPrior :
    (window_ms : ℕ) (entry : Entry) (priors : List Entry)
    → any_within window_ms entry priors ≡ true
    → HasPrior window_ms priors entry
unfolding any_within is_within
any_within-HasPrior w entry [] h = absurd (ground arith)
any_within-HasPrior w entry (p ∷ priors) h = elim (Bool-cases (is_within w entry p)) [
  | inl near ↦ record {
    at = 0;
    prior = p;
    stands = refl;
    same_type = ground (arith, text_beq_iff p.signal entry.signal);
    earlier = ground arith;
    near = ground arith;
  }
  | inr far ↦
      let h' = any_within-HasPrior w entry priors (ground arith) in
      record {
        at = suc h'.at;
        prior = h'.prior;
        stands = h'.stands;
        same_type = h'.same_type;
        earlier = h'.earlier;
        near = h'.near;
      }
]

found_within :
    (window_ms : ℕ) (entry : Entry) (priors : List Entry) (at : ℕ) (prior : Entry)
    → get_elem? priors at ≡ some prior
    → is_within window_ms entry prior ≡ true
    → any_within window_ms entry priors ≡ true
unfolding any_within
found_within w entry [] at prior s h = ground arith
found_within w entry (p ∷ priors) zero prior s h = ground arith
found_within w entry (p ∷ priors) (suc at) prior s h =
    ground (arith, found_within w entry priors at prior)

HasPrior-any_within :
    (window_ms : ℕ) (entry : Entry) (priors : List Entry)
    → HasPrior window_ms priors entry
    → any_within window_ms entry priors ≡ true
unfolding is_within
HasPrior-any_within w entry priors h =
    found_within w entry priors h.at h.prior h.stands
      (ground (arith, text_beq_iff h.prior.signal entry.signal, h.same_type, h.earlier, h.near))

-- The tag at a place is made of the entries before it.
get_elem?-tags :
    (window_ms : ℕ) (priors signals : List Entry) (i : ℕ) (entry : Entry)
    → get_elem? signals i ≡ some entry
    → get_elem? (tags_from window_ms priors signals) i
      ≡ some (if any_within window_ms entry (priors ++ take i signals) then clustered else isolated)
unfolding tags_from
get_elem?-tags w priors [] i entry s = absurd (cc)
get_elem?-tags w priors (e ∷ signals) zero entry s = ground (arith, append-nil priors)
get_elem?-tags w priors (e ∷ signals) (suc i) entry s =
    get_elem?-tags w (priors ++ e ∷ []) signals i entry s
    ∙ ground (arith, append_assoc priors (e ∷ []) (take i signals))

-- A signal is tagged as clustered exactly if an earlier one in the list has the same type, a time
-- before its own, and lies no more than the window of candles before it; one that lies exactly the
-- window before it counts.
pub cluster_tags_lem :
    (signals : List Entry) (window_candles interval_ms i : ℕ) (entry : Entry)
    → get_elem? signals i ≡ some entry
    → (get_elem? (compute_cluster_tags signals window_candles interval_ms) i ≡ some clustered)
      ↔ HasPrior (window_candles * interval_ms) (take i signals) entry
unfolding compute_cluster_tags
cluster_tags_lem signals window_candles interval_ms i entry s =
    let w = window_candles * interval_ms in
    let tag = get_elem?-tags w [] signals i entry s in
    (
      λ h. any_within-HasPrior w entry (take i signals) (ground (arith, tag, h)),
      λ h. tag ∙ rw (HasPrior-any_within w entry (take i signals) h) refl,
    )
