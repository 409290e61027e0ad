-- ===== src/Feeds/Base/FanOut.antt =====
-- A callback that raises does not keep the payload from the others.
use orvixa.Prelude.{ℕ, ◌+◌, ◌≡◌, ◌≢◌, List, [], ◌∷◌, All, arith}
use orvixa.Feeds.Base.{Outcome, returned, raised, cancelled, Callback, Feed, fan_out}

abbrev pub raise_count : Outcome → ℕ
raise_count raised = 1
raise_count _ = 0

module _ {ℓ κ} {S : Type ℓ} {P : Type κ} where
  abbrev pub NeverCancels : Callback S P → Type (ℓ ⊔ κ)
  NeverCancels cb = (payload : P) (s : S) → (cb payload s).0 ≢ cancelled

  -- Every callback is called once, in order, each on the state that the one before it left.
  pub deliver : List (Callback S P) → P → S → S
  deliver [] payload s = s
  deliver (cb ∷ callbacks) payload s = deliver callbacks payload (cb payload s).1

  -- How many of these calls raise.
  pub count_raises : List (Callback S P) → P → S → ℕ
  count_raises [] payload s = 0
  count_raises (cb ∷ callbacks) payload s =
      raise_count (cb payload s).0 + count_raises callbacks payload (cb payload s).1

  -- If no callback is cancelled, `_fan_out` returns, every callback has had the payload once and in
  -- the order of registration, whatever the others raised, and each exception was logged.
  pub fan_out-eq-deliver :
      (callbacks : List (Callback S P)) (payload : P) (s : Feed S)
      → All NeverCancels callbacks
      → fan_out callbacks payload s ≡ (
        returned,
        record {
          consumers = deliver callbacks payload s.consumers;
          logged = s.logged + count_raises callbacks payload s.consumers;
        },
      )
  unfolding fan_out deliver count_raises
  fan_out-eq-deliver [] payload s h = ground arith
  fan_out-eq-deliver (cb ∷ callbacks) payload s (h, hs) =
      let (outcome, t) = cb payload s.consumers in
      ground (
        arith,
        h payload s.consumers,
        fan_out-eq-deliver callbacks payload (record s { consumers = t }) hs,
        fan_out-eq-deliver callbacks payload (record { consumers = t; logged = s.logged + 1 }) hs,
      )
