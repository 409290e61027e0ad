-- ===== src/Feeds/Binance/Reconnect.antt =====
-- The delays between reconnects, and when the loop gives up.
use orvixa.Prelude.{
  ◌∙◌, ap, ℕ, zero, suc, ◌+◌, ◌≤◌, ◌≡◌, refl, Bool, true, false, List, [], ◌∷◌, ◌++◌, append_assoc,
  none, some, arith, count_if, length, length-append, All,
}
use orvixa.Feeds.Binance.{
  min, backoff_base, Session, closed, failed, failed_stopping, Run, start_run, run,
}

backoff_base_late : (a : ℕ) → backoff_base (suc (suc (suc (suc (suc a))))) ≡ 30
unfolding backoff_base
backoff_base_late a =
    let e : min (suc (suc (suc (suc (suc a))))) 5 ≡ 5 = omega arith in rw (e, backoff_base)

steps :
    (a : ℕ) → (1 ≤ backoff_base a) × (backoff_base a ≤ backoff_base (suc a)) × (backoff_base a ≤ 30)
unfolding backoff_base
steps zero = omega arith
steps (suc zero) = omega arith
steps (suc (suc zero)) = omega arith
steps (suc (suc (suc zero))) = omega arith
steps (suc (suc (suc (suc zero)))) = omega arith
steps (suc (suc (suc (suc (suc a))))) =
    omega (arith, backoff_base_late a, backoff_base_late (suc a))

-- The delays before jitter are from 1 to 30 seconds, never fall from one attempt to the next, and are 30
-- seconds from the sixth on.
pub backoff_base_steps :
    (a : ℕ)
    → (1 ≤ backoff_base a)
      × (backoff_base a ≤ backoff_base (suc a))
      × (backoff_base a ≤ 30)
      × (backoff_base (a + 5) ≡ 30)
backoff_base_steps a =
    let late : backoff_base (a + 5) ≡ 30 = ap backoff_base (omega arith) ∙ backoff_base_late a in
    let (low, rise, high) = steps a in (low, rise, high, late)

-- `a`, `a + 1`, ... : `k` numbers.
pub count_from : ℕ → ℕ → List ℕ
count_from a zero = []
count_from a (suc k) = a ∷ count_from (a + 1) k

abbrev pub failures : ℕ → List Session
failures zero = []
failures (suc k) = failed ∷ failures k

run-failures :
    (n k a c : ℕ) (sessions : List Session) (r : Run)
    → r.attempt ≡ a
    → a + k ≡ n
    → r.connect_count + suc k ≡ c
    → r.gave_up ≡ false
    → run (some n) (failures (suc k) ++ sessions) r ≡ record {
      attempt = n + 1;
      connect_count = c;
      backoff_history = r.backoff_history ++ count_from a (suc k);
      gave_up = true;
    }
unfolding run count_from
run-failures n zero a c sessions r e h q g = ground arith
run-failures n (suc k) a c sessions r e h q g =
    let next : Run = record r {
      attempt = r.attempt + 1;
      connect_count = r.connect_count + 1;
      backoff_history = r.backoff_history ++ r.attempt ∷ [];
    } in
    ground (
      arith,
      run-failures n k (a + 1) c sessions next,
      append_assoc r.backoff_history (r.attempt ∷ []) (count_from (a + 1) (suc k)),
    )

-- With `max_reconnects` set to n, n + 1 failures in a row after a clean start make the loop give up,
-- whatever would come after them: it has connected n + 1 times, and has recorded one delay for each of
-- the attempts 0 to n.
pub run_gives_up :
    (n : ℕ) (sessions : List Session)
    → run (some n) (failures (suc n) ++ sessions) start_run ≡ record {
      attempt = n + 1;
      connect_count = n + 1;
      backoff_history = count_from 0 (suc n);
      gave_up = true;
    }
unfolding start_run
run_gives_up n sessions =
    run-failures n n 0 (n + 1) sessions start_run refl (omega arith) (omega arith) refl

abbrev is_failed : Session → Bool
is_failed failed = true
is_failed _ = false

abbrev NotStopped : Session → Type 0
NotStopped failed_stopping = ⊥
NotStopped _ = Unit

-- Without `max_reconnects` the loop outlives every session that `stop` does not interrupt: it connects
-- once for each, records one delay for each that fails, and never gives up.
pub run_forever :
    (sessions : List Session) (r : Run)
    → All NotStopped sessions
    → let r' = run none sessions r in
      (r'.connect_count ≡ r.connect_count + length sessions)
      × (length r'.backoff_history ≡ length r.backoff_history + count_if is_failed sessions)
      × (r'.gave_up ≡ r.gave_up)
unfolding run
run_forever [] r h = ground arith
run_forever (closed ∷ sessions) r h =
    let next : Run = record r { attempt = 0; connect_count = r.connect_count + 1 } in
    ground (arith, run_forever sessions next h.1)
run_forever (failed ∷ sessions) r h =
    let next : Run = record r {
      attempt = r.attempt + 1;
      connect_count = r.connect_count + 1;
      backoff_history = r.backoff_history ++ r.attempt ∷ [];
    } in
    ground (arith, run_forever sessions next h.1, length-append r.backoff_history (r.attempt ∷ []))
run_forever (failed_stopping ∷ sessions) r h = absurd h.0
