-- ===== src/Runners/Tests.antt =====
-- A runner that crashes before it is set up, and is then sent a signal, twice.
use orvixa.Prelude.{◌≡◌, refl, true, false, [], ◌∷◌, inl, inr}
use orvixa.Runners.{Turn, returned, crashed, goes_on, supervise}
use orvixa.Runners.Restarts.{supervise_restarts}

-- A crash before the handlers are registered.
abbrev crash : Turn
crash = record {
  run_end = crashed;
  registers = false;
  signal_before = false;
  signal_after = false;
  signal_in_wait = false;
}

-- The runner is up, and a signal makes it return.
abbrev signalled : Turn
signalled = record {
  run_end = returned;
  registers = true;
  signal_before = false;
  signal_after = true;
  signal_in_wait = false;
}

supervise_restarts_example : supervise true (crash ∷ signalled ∷ signalled ∷ []) 0 ≡ (goes_on, 3)
supervise_restarts_example =
    supervise_restarts (crash ∷ []) signalled (signalled ∷ []) 0
      (record { over = inr refl; no_handlers = refl; no_signal = refl }, tt) (inl refl)
      (inl refl, tt)
