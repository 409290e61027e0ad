-- ===== src/Persistence/BatchWriter/Order.antt =====
-- No item is lost, repeated or overtaken, whatever the interleaving and whether or not the sink fails.
use orvixa.Prelude.{
  ℕ, ◌≡◌, refl, Bool, true, false, List, [], ◌∷◌, ◌++◌, append-nil, append_assoc, concat,
  concat-append, arith,
}
use orvixa.Persistence.BatchWriter.{
  BatchWriter, absent, init, start, stop, add, add_many, wake, loop_test, loop_written, join,
  stop_written, Step, started, stopped, added, added_many, began, woken, loop_sink, joined,
  stop_sink, Reach, here, next, flush_in_loop, flush_in_stop, take_batch, settle,
}

module _ {ℓ} {T : Type ℓ} where
  -- The items that the sink was handed, in order, and those that wait.
  abbrev pub passed : BatchWriter T → List T
  passed w = concat w.written ++ w.buffer

  passed-take :
      (xss : List (List T)) (xs : List T) → concat (xss ++ xs ∷ []) ++ [] ≡ concat xss ++ xs
  passed-take xss xs = simp (concat-append, append-nil)

  passed-flush_in_loop :
      (b : List T) (w : BatchWriter T) → w.buffer ≡ b → passed (flush_in_loop b w) ≡ passed w
  unfolding flush_in_loop take_batch loop_test
  passed-flush_in_loop [] w e = refl
  passed-flush_in_loop (x ∷ b) w e = passed-take w.written w.buffer

  passed-flush_in_stop :
      (b : List T) (w : BatchWriter T) → w.buffer ≡ b → passed (flush_in_stop b w) ≡ passed w
  unfolding flush_in_stop take_batch
  passed-flush_in_stop [] w e = refl
  passed-flush_in_stop (x ∷ b) w e = passed-take w.written w.buffer

  passed-settle : (ok : Bool) (w : BatchWriter T) → passed (settle ok w) ≡ passed w
  unfolding settle
  passed-settle true w = refl
  passed-settle false w = refl

  passed-start : (w : BatchWriter T) → passed (start w) ≡ passed w
  unfolding start
  passed-start w = ground arith

  passed-stop : (w : BatchWriter T) → passed (stop w) ≡ passed w
  unfolding stop
  passed-stop w = ground arith

  passed-add_many : (ys : List T) (w : BatchWriter T) → passed (add_many ys w) ≡ passed w ++ ys
  unfolding add_many
  passed-add_many [] w = rw append-nil
  passed-add_many (y ∷ ys) w = rw append_assoc

  -- One step hands over or stores exactly the items that it adds.
  passed-Step :
      {w : BatchWriter T} {ys : List T} {w' : BatchWriter T}
      → Step w ys w'
      → passed w' ≡ passed w ++ ys
  unfolding add wake join loop_written stop_written
  passed-Step {w} (started h) = rw append-nil (passed-start w)
  passed-Step {w} stopped = rw append-nil (passed-stop w)
  passed-Step (added item) = rw append_assoc
  passed-Step {w} (added_many items) = passed-add_many items w
  passed-Step (began h) = rw append-nil
  passed-Step {w} (woken h) =
      rw append-nil (passed-flush_in_loop w.buffer (record w { flush_event = false }) refl)
  passed-Step {w} (loop_sink batch ok h) = rw append-nil (passed-settle ok w)
  passed-Step {w} (joined h k) =
      rw append-nil (passed-flush_in_stop w.buffer (record w { loop = absent }) refl)
  passed-Step {w} (stop_sink batch ok h) = rw append-nil (passed-settle ok w)

  -- In every reachable state the batches that the sink was called with, one after the other, followed
  -- by the buffer, are the added items in the order in which they were added.
  pub passed-Reach :
      {max_size : ℕ} {xs : List T} {w : BatchWriter T}
      → Reach max_size xs w
      → concat w.written ++ w.buffer ≡ xs
  unfolding init
  passed-Reach here = refl
  passed-Reach (next {ys = ys} r st e) = rw (e, ← passed-Reach r) (passed-Step st)
