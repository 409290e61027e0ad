-- ===== src/Feeds/Binance/Tests.antt =====
-- The subscriptions and the reconnect loop at concrete inputs.
use orvixa.Prelude.{◌≡◌, refl, true, List, [], ◌∷◌, ◌++◌, some}
use orvixa.Prelude.Eq.{Text, text_eq, codes}
use orvixa.Prelude.Sets.{include, member, union, minus}
use orvixa.Feeds.Symbol.{to_upper}
use orvixa.Feeds.Binance.{
  Subscriptions, subscribed, track, subscribe, unsubscribe, closed, start_run, run,
}
use orvixa.Feeds.Binance.Tracking.{carried_after, IsMirrored, tracked-IsMirrored}
use orvixa.Feeds.Binance.Reconnect.{run_gives_up, failures, count_from}

abbrev pairs : List Text
pairs = codes "btcusdt" ∷ codes "ETHUSDT" ∷ []

-- A feed on an open socket that tracks BTC.
abbrev opened : Subscriptions
opened = record (track (codes "BTCUSDT" ∷ [])) { has_socket = true }

opened-IsMirrored : IsMirrored (codes "BTCUSDT" ∷ []) opened
unfolding track carried_after to_upper union include member
opened-IsMirrored = record { open_socket = refl; mirrored = λ p. refl }

-- The lower-case BTC is known already.
subscribe_runs : (subscribe pairs opened).frames ≡ subscribed (codes "ETHUSDT" ∷ []) ∷ []
unfolding track subscribe to_upper union include minus member
subscribe_runs = refl

tracked-IsMirrored_example :
    IsMirrored (codes "BTCUSDT" ∷ []) (subscribe pairs opened)
    × IsMirrored (codes "BTCUSDT" ∷ []) (unsubscribe pairs opened)
tracked-IsMirrored_example =
    tracked-IsMirrored (codes "BTCUSDT" ∷ []) pairs opened opened-IsMirrored

run_gives_up_example :
    run (some 2) (failures 3 ++ closed ∷ []) start_run
    ≡ record { attempt = 3; connect_count = 3; backoff_history = count_from 0 3; gave_up = true }
run_gives_up_example = run_gives_up 2 (closed ∷ [])
