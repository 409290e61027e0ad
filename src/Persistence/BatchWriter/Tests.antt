-- ===== src/Persistence/BatchWriter/Tests.antt =====
-- Runs of the writer, and the properties at concrete runs.
use orvixa.Prelude.{ℕ, ◌≡◌, refl, true, false, [], ◌∷◌, ◌++◌, concat}
use orvixa.Persistence.BatchWriter.{
  BatchWriter, join, loop_written, settle, loop_sink, joined, idle, absent, init, start, stop, add,
  add_many, wake, loop_test, started, stopped, added, added_many, began, woken, Reach, here, next,
}
use orvixa.Persistence.BatchWriter.Order.{passed-Reach}
use orvixa.Persistence.BatchWriter.Counts.{IsSound, Reach-IsSound}
use orvixa.Persistence.BatchWriter.Shutdown.{Quiet, stay, move, shutdown, shutdown_drains}

-- Two items fill the buffer, the task takes them, and a third comes while the sink runs.
abbrev busy : BatchWriter ℕ
busy = add 3 (wake (add_many (1 ∷ 2 ∷ []) (loop_test (start (init 2)))))

busy_run : Reach 2 (1 ∷ 2 ∷ 3 ∷ []) busy
unfolding init start loop_test add_many wake
busy_run =
    next
      (next
        (next (next (next here (started refl) refl) (began refl) refl) (added_many (1 ∷ 2 ∷ []))
          refl)
        (woken refl) refl)
      (added 3) refl

busy_written : busy.written ≡ (1 ∷ 2 ∷ []) ∷ []
unfolding init start loop_test add_many wake add
busy_written = refl

-- The same with `stop` called while the sink runs.
stopping_run : Reach 2 (1 ∷ 2 ∷ 3 ∷ []) (stop busy)
stopping_run = next busy_run stopped refl

passed-Reach_example : concat busy.written ++ busy.buffer ≡ 1 ∷ 2 ∷ 3 ∷ []
passed-Reach_example = passed-Reach busy_run

Reach-IsSound_example : IsSound 2 busy
Reach-IsSound_example = Reach-IsSound busy_run

-- The sink raises, the task ends, and the final drain hands over the third item.
abbrev drained : BatchWriter ℕ
drained = join (loop_written false (stop busy))

drained_run : Quiet (stop busy) drained
unfolding init start loop_test add_many wake add stop loop_written settle
drained_run = move (move stay (loop_sink (1 ∷ 2 ∷ []) false refl) refl) (joined refl refl) refl

shutdown_drains_example :
    Quiet (stop busy) (shutdown false true (stop busy))
    × ((shutdown false true (stop busy)).stopping ≡ idle)
    × ((shutdown false true (stop busy)).loop ≡ absent)
    × (drained.buffer ≡ [])
    × (concat drained.written ≡ 1 ∷ 2 ∷ 3 ∷ [])
unfolding init start loop_test add_many wake add stop loop_written settle join
shutdown_drains_example = shutdown_drains false true stopping_run refl drained_run (λ e. cc)
