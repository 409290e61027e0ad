-- ===== src/Runners/Restarts.antt =====
-- The supervisor restarts its runner, and which signals stop it.
use orvixa.Prelude.{
  Bool-cases, inl, inr, refl, ap, ◌∙◌, not, ◌&&◌, if◌then◌else◌, ◌∙◌, ℕ, ◌+◌, ◌≡◌, true, false,
  ◌||◌, List, [], ◌∷◌, ◌++◌, All, length, ◌⊎◌, arith,
}
use orvixa.Runners.{returned, crashed, Turn, stopped, goes_on, supervise}

-- The runner returned or crashed.
abbrev pub IsOver : Turn → Type 0
IsOver t = (t.run_end ≡ returned) ⊎ (t.run_end ≡ crashed)

-- So did it, and no signal came that the supervisor could have taken; the runner registered no handlers.
pub record IsQuiet (t : Turn) : Type 0 where
  pub over : IsOver t
  pub no_handlers : t.registers ≡ false
  pub no_signal : (t.signal_before || t.signal_in_wait) ≡ false

-- Without its handlers the supervisor goes on, whatever signals come.
supervise_deaf :
    (turns : List Turn) (runs : ℕ)
    → All IsOver turns
    → supervise false turns runs ≡ (goes_on, runs + length turns)
unfolding supervise
supervise_deaf [] runs h = ground arith
supervise_deaf (t ∷ turns) runs h =
    let rest = supervise_deaf turns (runs + 1) h.1 in ground (arith, rest, h.0)

quiet-supervise :
    (quiet later : List Turn) (runs : ℕ)
    → All IsQuiet quiet
    → supervise true (quiet ++ later) runs ≡ supervise true later (runs + length quiet)
unfolding supervise
quiet-supervise [] later runs h = ground arith
quiet-supervise (t ∷ quiet) later runs h =
    let rest = quiet-supervise quiet later (runs + 1) h.1 in
    ground (arith, rest, h.0.over, h.0.no_handlers, h.0.no_signal)

-- The turn after the quiet ones.
first_turn :
    (t : Turn) (later : List Turn) (runs : ℕ)
    → IsOver t
    → supervise true (t ∷ later) runs ≡ (
        if t.signal_before || not t.registers && t.signal_in_wait
        then (stopped, runs + 1)
        else supervise (not t.registers) later (runs + 1))
unfolding supervise
first_turn t later runs over = ground (arith, over)

-- Where the supervisor has stopped, or goes on with its handlers or without them.
after_turn :
    (t : Turn) (later : List Turn) (runs : ℕ)
    → All IsOver later
    → supervise (not t.registers) later runs
      ≡ (if t.registers then (goes_on, runs + length later) else supervise true later runs)
after_turn t later runs overs = elim (Bool-cases t.registers) [
  | inl own ↦ rw own (supervise_deaf later runs overs)
  | inr other ↦ rw other refl
]

-- Over turns in which the runner returns or crashes, registers no handlers and no signal comes, the
-- supervisor calls the runner once for each. In a turn after them that ends in the same way: where a
-- signal comes while the supervisor's handlers are registered, in the call or in the wait, it stops after
-- this turn; otherwise, where the runner has registered its own handlers, the supervisor restarts it after
-- this turn and after every later one that returns or crashes, whatever signals come; and otherwise it
-- goes on as before.
pub supervise_restarts :
    (quiet : List Turn) (t : Turn) (later : List Turn) (runs : ℕ)
    → All IsQuiet quiet
    → IsOver t
    → All IsOver later
    → let n = runs + length quiet + 1 in
      supervise true (quiet ++ t ∷ later) runs ≡ (
        if t.signal_before || not t.registers && t.signal_in_wait
        then (stopped, n)
        else if t.registers
        then (goes_on, n + length later)
        else supervise true later n)
supervise_restarts quiet t later runs h over overs =
    let n = runs + length quiet in
    quiet-supervise quiet (t ∷ later) runs h
    ∙ first_turn t later n over
    ∙ ap
        (λ r.
          if t.signal_before || not t.registers && t.signal_in_wait then (stopped, n + 1) else r)
        (after_turn t later (n + 1) overs)
