-- ===== src/Persistence/BatchWriter/Counts.antt =====
-- What every reachable state of the writer keeps: the counters, the event, and one sink at a time.
use orvixa.Prelude.{
  ◌⊎◌, ℕ, ◌+◌, ◌<◌, ◌≡◌, Bool, true, false, List, [], ◌∷◌, length, length-append, All, All-append,
  arith,
}
use orvixa.Persistence.BatchWriter.{
  BatchWriter, Loop, absent, created, waiting, writing, finished, Stop, idle, joining, draining,
  init, start, stop, add, add_many, append, wake, loop_test, loop_written, join, stop_written, Step,
  started, stopped, added, added_many, began, woken, loop_sink, joined, stop_sink, Reach, here,
  next,
}

module _ {ℓ} {T : Type ℓ} where
  -- The sink calls of the task that have not ended.
  abbrev pub in_loop : Loop T → ℕ
  in_loop (writing _) = 1
  in_loop _ = 0

  abbrev pub in_stop : Stop T → ℕ
  in_stop (draining _) = 1
  in_stop _ = 0

  -- How `_running`, the task and a call of `stop` stand to one another.
  abbrev pub Agree : Bool → Loop T → Stop T → Type 0
  Agree true created idle = Unit
  Agree true waiting idle = Unit
  Agree true (writing _) idle = Unit
  Agree false absent idle = Unit
  Agree false absent (draining _) = Unit
  Agree false created joining = Unit
  Agree false waiting joining = Unit
  Agree false (writing _) joining = Unit
  Agree false finished joining = Unit
  Agree _ _ _ = ⊥

  abbrev pub NonEmpty : List T → Type 0
  NonEmpty [] = ⊥
  NonEmpty (_ ∷ _) = Unit

  pub record IsSound (max_size : ℕ) (w : BatchWriter T) : Type ℓ where
    pub size_kept : w.max_size ≡ max_size
    pub agree : Agree w.running w.loop w.stopping
    pub counted :
        w.flush_count + w.error_count + in_loop w.loop + in_stop w.stopping ≡ length w.written
    pub signalled : (max_size ≡ 0) ⊎ ((length w.buffer < max_size) ⊎ (w.flush_event ≡ true))
    pub nonempty : All NonEmpty w.written

module _ {ℓ} {T : Type ℓ} {n : ℕ} where
  loop_test-IsSound : (w : BatchWriter T) → w.loop ≡ created → IsSound n w → IsSound n (loop_test w)
  unfolding loop_test
  loop_test-IsSound w e s = ground arith

  start-IsSound : (w : BatchWriter T) → w.stopping ≡ idle → IsSound n w → IsSound n (start w)
  unfolding start
  start-IsSound w e s = ground arith

  stop-IsSound : (w : BatchWriter T) → IsSound n w → IsSound n (stop w)
  unfolding stop
  stop-IsSound w s = ground arith

  append-IsSound : (xs : List T) (w : BatchWriter T) → IsSound n w → IsSound n (append xs w)
  unfolding append
  append-IsSound xs w s = ground (arith, length-append w.buffer xs)

  wake-IsSound : (w : BatchWriter T) → w.loop ≡ waiting → IsSound n w → IsSound n (wake w)
  unfolding wake
  wake-IsSound w e s = ground (
    arith,
    length-append w.written (w.buffer ∷ []),
    All-append NonEmpty w.written (w.buffer ∷ []),
  )

  loop_written-IsSound :
      (b : List T) (ok : Bool) (w : BatchWriter T)
      → w.loop ≡ writing b
      → IsSound n w
      → IsSound n (loop_written ok w)
  unfolding loop_written
  loop_written-IsSound b true w e s = ground arith
  loop_written-IsSound b false w e s = ground arith

  join-IsSound :
      (w : BatchWriter T)
      → w.stopping ≡ joining
      → w.loop ≡ finished
      → IsSound n w
      → IsSound n (join w)
  unfolding join
  join-IsSound w e f s = ground (
    arith,
    length-append w.written (w.buffer ∷ []),
    All-append NonEmpty w.written (w.buffer ∷ []),
  )

  stop_written-IsSound :
      (b : List T) (ok : Bool) (w : BatchWriter T)
      → w.stopping ≡ draining b
      → IsSound n w
      → IsSound n (stop_written ok w)
  unfolding stop_written
  stop_written-IsSound b true w e s = ground arith
  stop_written-IsSound b false w e s = ground arith

  add_many-IsSound : (xs : List T) (w : BatchWriter T) → IsSound n w → IsSound n (add_many xs w)
  unfolding add_many
  add_many-IsSound [] w s = s
  add_many-IsSound (x ∷ xs) w s = append-IsSound (x ∷ xs) w s

  Step-IsSound :
      {w : BatchWriter T} {ys : List T} {w' : BatchWriter T}
      → Step w ys w'
      → IsSound n w
      → IsSound n w'
  unfolding add
  Step-IsSound {w} (started h) s = start-IsSound w h s
  Step-IsSound {w} stopped s = stop-IsSound w s
  Step-IsSound {w} (added item) s = append-IsSound (item ∷ []) w s
  Step-IsSound {w} (added_many items) s = add_many-IsSound items w s
  Step-IsSound {w} (began h) s = loop_test-IsSound w h s
  Step-IsSound {w} (woken h) s = wake-IsSound w h s
  Step-IsSound {w} (loop_sink batch ok h) s = loop_written-IsSound batch ok w h s
  Step-IsSound {w} (joined h k) s = join-IsSound w h k s
  Step-IsSound {w} (stop_sink batch ok h) s = stop_written-IsSound batch ok w h s

-- In every reachable state: `_max_size` is as it was set; the task and `stop` are at places that
-- agree with `_running`, so that no two sink calls are under way; every sink call is counted as a
-- flush or an error or is under way; a buffer of `_max_size` items or more (where that is not 0) has
-- the flush event set; and no batch handed to the sink was empty.
pub Reach-IsSound {ℓ} :
    {T : Type ℓ} {max_size : ℕ} {xs : List T} {w : BatchWriter T}
    → Reach max_size xs w
    → IsSound max_size w
unfolding init
Reach-IsSound here = ground arith
Reach-IsSound (next r st e) = Step-IsSound st (Reach-IsSound r)
