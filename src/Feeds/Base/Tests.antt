-- ===== src/Feeds/Base/Tests.antt =====
-- The fan-out at concrete callbacks: the first counts and raises, the second adds the payload.
use orvixa.Prelude.{ℕ, ◌+◌, ◌≡◌, refl, List, [], ◌∷◌}
use orvixa.Feeds.Base.{returned, raised, Callback, Feed, fan_out}
use orvixa.Feeds.Base.FanOut.{deliver, count_raises, fan_out-eq-deliver}

abbrev failing : Callback ℕ ℕ
failing payload s = (raised, s + 1)

abbrev adding : Callback ℕ ℕ
adding payload s = (returned, s + payload)

abbrev callbacks : List (Callback ℕ ℕ)
callbacks = failing ∷ adding ∷ []

abbrev at_start : Feed ℕ
at_start = record { consumers = 10; logged = 0 }

fan_out_runs : fan_out callbacks 5 at_start ≡ (returned, record { consumers = 16; logged = 1 })
unfolding fan_out
fan_out_runs = refl

fan_out-eq-deliver_example : fan_out callbacks 5 at_start ≡ (
  returned,
  record { consumers = deliver callbacks 5 10; logged = 0 + count_raises callbacks 5 10 },
)
fan_out-eq-deliver_example =
    fan_out-eq-deliver callbacks 5 at_start ((λ p s e. cc), ((λ p s e. cc), tt))
