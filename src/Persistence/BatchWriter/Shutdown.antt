-- ===== src/Persistence/BatchWriter/Shutdown.antt =====
-- A call of `stop` ends, and then everything that was added has been handed to the sink.
use orvixa.Prelude.{
  ◌⊎◌, inl, inr, ℕ, ◌≡◌, ◌≢◌, refl, sym, ap, ◌∙◌, Bool, true, false, List, [], ◌∷◌, ◌++◌,
  append-nil, concat, arith,
}
use orvixa.Persistence.BatchWriter.{
  BatchWriter, Loop, absent, created, waiting, writing, finished, Stop, idle, joining, draining,
  loop_test, wake, loop_written, join, stop_written, settle, added, added_many, started, stopped,
  start, stop, add_many, take_batch, flush_in_loop, flush_in_stop, Step, began, woken, loop_sink,
  joined, stop_sink, Reach, next,
}
use orvixa.Persistence.BatchWriter.Order.{passed-Reach}
use orvixa.Persistence.BatchWriter.Counts.{IsSound, Reach-IsSound}

module _ {ℓ} {T : Type ℓ} where
  -- The steps by which the task ends once `_running` is false, the sink ending as `ok` says.
  end_sink : Bool → Loop T → BatchWriter T → BatchWriter T
  end_sink ok (writing _) w = loop_written ok w
  end_sink ok _ w = w

  end_task : Bool → Loop T → BatchWriter T → BatchWriter T
  unfolding end_sink
  end_task ok created w = loop_test w
  end_task ok waiting w = let w' = wake w in end_sink ok w'.loop w'
  end_task ok l w = end_sink ok l w

  end_drain : Bool → Stop T → BatchWriter T → BatchWriter T
  end_drain ok (draining _) w = stop_written ok w
  end_drain ok _ w = w

  join_drain : Bool → BatchWriter T → BatchWriter T
  unfolding end_drain
  join_drain ok w = let w' = join w in end_drain ok w'.stopping w'

  -- The rest of a `stop` that has set the event, when nothing is added meanwhile: the task ends, and
  -- the final drain follows. The Booleans say whether the sink returns.
  pub shutdown : Bool → Bool → BatchWriter T → BatchWriter T
  unfolding end_task join_drain
  shutdown ok ok' w = join_drain ok' (end_task ok w.loop w)

  -- A writer whose `stop` awaits the task.
  abbrev IsStopping : BatchWriter T → Type ℓ
  IsStopping w = (w.running ≡ false) × (w.stopping ≡ joining)

  not_running : {n : ℕ} (w : BatchWriter T) → IsSound n w → w.stopping ≡ joining → w.running ≡ false
  not_running w s e = ground arith

  -- Runs of the event loop in which nothing is added.
  pub data Quiet (w : BatchWriter T) : BatchWriter T → Type ℓ where
    stay : Quiet w w
    move : {v v' : BatchWriter T} {ys : List T} → Quiet w v → Step v ys v' → ys ≡ [] → Quiet w v'

  silent : {w v v' : BatchWriter T} → Quiet w v → Step v [] v' → Quiet w v'
  silent r st = move r st refl

  Quiet-Reach :
      {n : ℕ} {xs : List T} {w w' : BatchWriter T} → Reach n xs w → Quiet w w' → Reach n xs w'
  Quiet-Reach r stay = r
  Quiet-Reach {xs = xs} r (move q st e) =
      next (Quiet-Reach r q) st (sym (append-nil xs) ∙ ap (λ ys. xs ++ ys) (sym e))

  -- A turn of the loop in a stopping writer ends the task or calls the sink.
  data Ended (l : Loop T) : Type ℓ where
    done : l ≡ finished → Ended l
    sink : (b : List T) → l ≡ writing b → Ended l

  loop_test-finished :
      (w : BatchWriter T)
      → IsStopping w
      → ((loop_test w).loop ≡ finished) × IsStopping (loop_test w)
  unfolding loop_test
  loop_test-finished w h = ground arith

  loop_written-finished :
      (ok : Bool) (w : BatchWriter T)
      → IsStopping w
      → ((loop_written ok w).loop ≡ finished) × IsStopping (loop_written ok w)
  unfolding loop_written
  loop_written-finished true w h = ground arith
  loop_written-finished false w h = ground arith

  flush_in_loop-Ended :
      (b : List T) (w : BatchWriter T)
      → IsStopping w
      → Ended (flush_in_loop b w).loop × IsStopping (flush_in_loop b w)
  unfolding flush_in_loop take_batch
  flush_in_loop-Ended [] w h = let (f, s) = loop_test-finished w h in (done f, s)
  flush_in_loop-Ended (x ∷ b) w h = (sink (x ∷ b) refl, h)

  module _ (origin : BatchWriter T) where
    -- A stopping writer, with its task ended.
    abbrev IsJoinable : BatchWriter T → Type ℓ
    IsJoinable w = Quiet origin w × (w.loop ≡ finished) × (w.stopping ≡ joining)

    end_sink-IsJoinable :
        (ok : Bool) (l : Loop T) (w : BatchWriter T)
        → w.loop ≡ l
        → Quiet origin w
        → Ended l
        → IsStopping w
        → IsJoinable (end_sink ok l w)
    unfolding end_sink
    end_sink-IsJoinable ok (writing b) w e r d h =
        let (f, s) = loop_written-finished ok w h in (silent r (loop_sink b ok e), f, s.1)
    end_sink-IsJoinable ok finished w e r d h = (r, e, h.1)
    end_sink-IsJoinable ok absent w e r (done f) h = cc
    end_sink-IsJoinable ok absent w e r (sink b f) h = cc
    end_sink-IsJoinable ok created w e r (done f) h = cc
    end_sink-IsJoinable ok created w e r (sink b f) h = cc
    end_sink-IsJoinable ok waiting w e r (done f) h = cc
    end_sink-IsJoinable ok waiting w e r (sink b f) h = cc

    not_absent : {n : ℕ} (w : BatchWriter T) → IsSound n w → w.stopping ≡ joining → w.loop ≢ absent
    not_absent w s e f = ground arith

    end_task-IsJoinable :
        (ok : Bool) (l : Loop T) (w : BatchWriter T)
        → w.loop ≡ l
        → Quiet origin w
        → IsStopping w
        → l ≢ absent
        → IsJoinable (end_task ok l w)
    unfolding end_task
    end_task-IsJoinable ok absent w e r h p = absurd (p refl)
    end_task-IsJoinable ok created w e r h p =
        let (f, s) = loop_test-finished w h in (silent r (began e), f, s.1)
    end_task-IsJoinable ok waiting w e r h p =
        let (d, s) = flush_in_loop-Ended w.buffer (record w { flush_event = false }) h in
        end_sink-IsJoinable ok (wake w).loop (wake w) refl (silent r (woken e)) (unfold wake in d)
          (unfold wake in s)
    end_task-IsJoinable ok (writing b) w e r h p =
        end_sink-IsJoinable ok (writing b) w e r (sink b refl) h
    end_task-IsJoinable ok finished w e r h p = end_sink-IsJoinable ok finished w e r (done refl) h

    abbrev IsDrained : BatchWriter T → Type ℓ
    IsDrained w = Quiet origin w × (w.stopping ≡ idle) × (w.loop ≡ absent) × (w.buffer ≡ [])

    drain_buffer :
        (ok : Bool) (b : List T) (w : BatchWriter T)
        → let w' = flush_in_stop b (record w { loop = absent }) in
          w.buffer ≡ b → Quiet origin w' → IsDrained (end_drain ok w'.stopping w')
    unfolding flush_in_stop take_batch end_drain stop_written
    drain_buffer ok [] w e r = (r, refl, refl, e)
    drain_buffer true (x ∷ b) w e r = (silent r (stop_sink (x ∷ b) true refl), refl, refl, refl)
    drain_buffer false (x ∷ b) w e r = (silent r (stop_sink (x ∷ b) false refl), refl, refl, refl)

    join_drain-IsDrained :
        (ok : Bool) (w : BatchWriter T) → IsJoinable w → IsDrained (join_drain ok w)
    unfolding join_drain join
    join_drain-IsDrained ok w (r, f, e) = drain_buffer ok w.buffer w refl (silent r (joined e f))

  -- Before the final drain, or with nothing left to hand over.
  abbrev IsEmptying : BatchWriter T → Type ℓ
  IsEmptying w = (w.stopping ≡ joining) ⊎ (w.buffer ≡ [])

  start-IsEmptying : (w : BatchWriter T) → w.stopping ≡ idle → IsEmptying w → IsEmptying (start w)
  unfolding start
  start-IsEmptying w i h = ground arith

  stop-IsEmptying : (w : BatchWriter T) → IsEmptying w → IsEmptying (stop w)
  unfolding stop
  stop-IsEmptying w h = ground arith

  loop_test-IsEmptying : (w : BatchWriter T) → IsEmptying w → IsEmptying (loop_test w)
  unfolding loop_test
  loop_test-IsEmptying w h = h

  settle-IsEmptying : (ok : Bool) (w : BatchWriter T) → IsEmptying w → IsEmptying (settle ok w)
  unfolding settle
  settle-IsEmptying true w h = h
  settle-IsEmptying false w h = h

  flush_in_loop-IsEmptying :
      (b : List T) (w : BatchWriter T) → IsEmptying w → IsEmptying (flush_in_loop b w)
  unfolding flush_in_loop take_batch
  flush_in_loop-IsEmptying [] w h = loop_test-IsEmptying w h
  flush_in_loop-IsEmptying (x ∷ b) w h = inr refl

  flush_in_stop-empty :
      (b : List T) (w : BatchWriter T) → w.buffer ≡ b → (flush_in_stop b w).buffer ≡ []
  unfolding flush_in_stop take_batch
  flush_in_stop-empty [] w e = e
  flush_in_stop-empty (x ∷ b) w e = refl

  drained-IsEmptying :
      (b : List T) (w : BatchWriter T) → w.stopping ≡ draining b → IsEmptying w → w.buffer ≡ []
  drained-IsEmptying b w e (inl j) = cc
  drained-IsEmptying b w e (inr h) = h

  -- A step that adds nothing.
  Step-IsEmptying :
      {w w' : BatchWriter T} {ys : List T} → Step w ys w' → ys ≡ [] → IsEmptying w → IsEmptying w'
  unfolding wake join loop_written stop_written add_many
  Step-IsEmptying {w} (started i) e h = start-IsEmptying w i h
  Step-IsEmptying {w} stopped e h = stop-IsEmptying w h
  Step-IsEmptying (added item) e h = absurd (cc)
  Step-IsEmptying (added_many []) e h = h
  Step-IsEmptying (added_many (x ∷ items)) e h = absurd (cc)
  Step-IsEmptying {w} (began i) e h = loop_test-IsEmptying w h
  Step-IsEmptying {w} (woken i) e h =
      flush_in_loop-IsEmptying w.buffer (record w { flush_event = false }) h
  Step-IsEmptying {w} (loop_sink batch ok i) e h =
      loop_test-IsEmptying (settle ok w) (settle-IsEmptying ok w h)
  Step-IsEmptying {w} (joined i j) e h =
      inr (flush_in_stop-empty w.buffer (record w { loop = absent }) refl)
  Step-IsEmptying {w} (stop_sink batch true i) e h =
      inr (unfold settle in drained-IsEmptying batch w i h)
  Step-IsEmptying {w} (stop_sink batch false i) e h =
      inr (unfold settle in drained-IsEmptying batch w i h)

  Quiet-IsEmptying : {w w' : BatchWriter T} → Quiet w w' → IsEmptying w → IsEmptying w'
  Quiet-IsEmptying stay h = h
  Quiet-IsEmptying (move q st e) h = Step-IsEmptying st e (Quiet-IsEmptying q h)

  empty_unless : (w : BatchWriter T) → IsEmptying w → w.stopping ≢ joining → w.buffer ≡ []
  empty_unless w (inl j) n = absurd (n j)
  empty_unless w (inr h) n = h

  written_all :
      {n : ℕ} {xs : List T} (w : BatchWriter T)
      → Reach n xs w
      → w.buffer ≡ []
      → concat w.written ≡ xs
  written_all w r e =
      sym (append-nil (concat w.written)) ∙ ap (λ t. concat w.written ++ t) (sym e) ∙ passed-Reach r

-- Take a reachable state in which `stop` awaits the task. If nothing is added from then on, `stop` can
-- return whether or not the sink raises: the steps of `shutdown` are such a run, which ends with `stop`
-- returned and no task. And in every run from there on in which nothing is added, in whatever order its
-- steps come, once `stop` is past its `await` of the task the buffer is empty, and the batches handed to
-- the sink then hold exactly the added items, in order.
pub shutdown_drains {ℓ} :
    {T : Type ℓ} {max_size : ℕ} {xs : List T} {w w' : BatchWriter T} (ok ok' : Bool)
    → Reach max_size xs w
    → w.stopping ≡ joining
    → Quiet w w'
    → w'.stopping ≢ joining
    → Quiet w (shutdown ok ok' w)
      × ((shutdown ok ok' w).stopping ≡ idle)
      × ((shutdown ok ok' w).loop ≡ absent)
      × (w'.buffer ≡ [])
      × (concat w'.written ≡ xs)
unfolding shutdown
shutdown_drains {w = w} {w' = w'} ok ok' r e q past =
    let s = Reach-IsSound r in
    let stopping : IsStopping w = (not_running w s e, e) in
    let joinable = end_task-IsJoinable w ok w.loop w refl stay stopping (not_absent w w s e) in
    let (r', i, a, _) = join_drain-IsDrained w ok' (end_task ok w.loop w) joinable in
    let empty = empty_unless w' (Quiet-IsEmptying q (inl e)) past in
    (r', i, a, empty, written_all w' (Quiet-Reach r q) empty)
