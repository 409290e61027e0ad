-- ===== src/Persistence/BatchWriter.antt =====
-- `BatchWriter` (src/orvixa/persistence/batch_writer.py). Each function is a stretch of the source
-- between two suspension points of the event loop. `Step` interleaves them with the producers.
pub mod Order
pub mod Counts
pub mod Shutdown
mod Tests
use orvixa.Prelude.{ℕ, ◌+◌, ◌≡◌, Bool, true, false, List, [], ◌∷◌, ◌++◌, length, leb, if◌then◌else◌}

-- Where the task of `_run` stands: no task, created and not yet run, suspended in `wait_for`, suspended in the sink with a
-- batch, or returned from `_run`.
pub data Loop {ℓ} (T : Type ℓ) : Type ℓ where
  absent : Loop T
  created : Loop T
  waiting : Loop T
  writing : List T → Loop T
  finished : Loop T

-- Where a call of `stop` stands: none under way, awaiting the task, or in the sink of the final drain.
pub data Stop {ℓ} (T : Type ℓ) : Type ℓ where
  idle : Stop T
  joining : Stop T
  draining : List T → Stop T

-- The fields of the object. `written` logs the argument of every call of the sink.
pub record BatchWriter {ℓ} (T : Type ℓ) : Type ℓ where
  pub max_size : ℕ
  pub buffer : List T
  pub flush_event : Bool
  pub running : Bool
  pub loop : Loop T
  pub stopping : Stop T
  pub flush_count : ℕ
  pub error_count : ℕ
  pub written : List (List T)

module _ {ℓ} {T : Type ℓ} where
  -- `__init__`
  unfoldable pub init : ℕ → BatchWriter T
  init max_size = record {
    max_size = max_size;
    buffer = [];
    flush_event = false;
    running = false;
    loop = absent;
    stopping = idle;
    flush_count = 0;
    error_count = 0;
    written = [];
  }

  -- The test of the `while` in `_run`.
  unfoldable pub loop_test : BatchWriter T → BatchWriter T
  loop_test w = record w { loop = if w.running then waiting else finished }

  unfoldable pub start : BatchWriter T → BatchWriter T
  start w = if w.running then w else record w { running = true; loop = created }

  -- `stop` up to the `await` of the task.
  unfoldable pub stop : BatchWriter T → BatchWriter T
  stop w =
      if w.running then record w { running = false; flush_event = true; stopping = joining } else w

  -- `add_many` of a list that is not empty.
  append : List T → BatchWriter T → BatchWriter T
  append items w =
      let buffer : List T = w.buffer ++ items in
      record w {
        buffer = buffer;
        flush_event = if leb w.max_size (length buffer) then true else w.flush_event;
      }

  unfoldable pub add : T → BatchWriter T → BatchWriter T
  unfolding append
  add item w = append (item ∷ []) w

  unfoldable pub add_many : List T → BatchWriter T → BatchWriter T
  unfolding append
  add_many [] w = w
  add_many (item ∷ items) w = append (item ∷ items) w

  -- The locked part of `_flush`, for a batch that is not empty, and the call of the sink.
  unfoldable pub take_batch : BatchWriter T → BatchWriter T
  take_batch w = record w { buffer = []; written = w.written ++ w.buffer ∷ [] }

  -- The counters of `_flush`, by whether the sink returned or raised.
  unfoldable pub settle : Bool → BatchWriter T → BatchWriter T
  settle true w = record w { flush_count = w.flush_count + 1 }
  settle false w = record w { error_count = w.error_count + 1 }

  flush_in_loop : List T → BatchWriter T → BatchWriter T
  flush_in_loop [] w = loop_test w
  flush_in_loop (item ∷ items) w = record (take_batch w) { loop = writing (item ∷ items) }

  -- One turn of `_run` from the end of `wait_for`, by the event or by the timeout, up to the sink or
  -- back to `wait_for`.
  unfoldable pub wake : BatchWriter T → BatchWriter T
  unfolding flush_in_loop take_batch loop_test
  wake w = flush_in_loop w.buffer (record w { flush_event = false })

  -- The sink of the task ends.
  unfoldable pub loop_written : Bool → BatchWriter T → BatchWriter T
  unfolding loop_test settle
  loop_written ok w = loop_test (settle ok w)

  flush_in_stop : List T → BatchWriter T → BatchWriter T
  flush_in_stop [] w = record w { stopping = idle }
  flush_in_stop (item ∷ items) w = record (take_batch w) { stopping = draining (item ∷ items) }

  -- `stop` from the end of the task to the sink of its final drain, or to its end.
  unfoldable pub join : BatchWriter T → BatchWriter T
  unfolding flush_in_stop take_batch
  join w = flush_in_stop w.buffer (record w { loop = absent })

  -- The sink of the final drain ends, and `stop` returns.
  unfoldable pub stop_written : Bool → BatchWriter T → BatchWriter T
  unfolding settle
  stop_written ok w = record (settle ok w) { stopping = idle }

-- One step of the event loop, labelled with the items that it adds. The sink may return or raise, and
-- `wait_for` may time out at any moment. `start` is called while no `stop` is under way.
pub data Step {ℓ} {T : Type ℓ} (w : BatchWriter T) : List T → BatchWriter T → Type ℓ where
  started : w.stopping ≡ idle → Step w [] (start w)
  stopped : Step w [] (stop w)
  added : (item : T) → Step w (item ∷ []) (add item w)
  added_many : (items : List T) → Step w items (add_many items w)
  began : w.loop ≡ created → Step w [] (loop_test w)
  woken : w.loop ≡ waiting → Step w [] (wake w)
  loop_sink : (batch : List T) (ok : Bool) → w.loop ≡ writing batch → Step w [] (loop_written ok w)
  joined : w.stopping ≡ joining → w.loop ≡ finished → Step w [] (join w)
  stop_sink :
      (batch : List T) (ok : Bool) → w.stopping ≡ draining batch → Step w [] (stop_written ok w)

-- What runs of the event loop reach, with the items that were added so far in the order of the calls.
pub data Reach {ℓ} {T : Type ℓ} (max_size : ℕ) : List T → BatchWriter T → Type ℓ where
  here : Reach max_size [] (init max_size)
  next :
      {xs ys zs : List T} {w w' : BatchWriter T}
      → Reach max_size xs w
      → Step w ys w'
      → zs ≡ xs ++ ys
      → Reach max_size zs w'
