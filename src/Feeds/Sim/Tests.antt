-- ===== src/Feeds/Sim/Tests.antt =====
-- A round of the simulator.
use orvixa.Prelude.{ℕ, ◌+◌, refl, [], ◌∷◌, All}
use orvixa.Prelude.Int.{pos}
use orvixa.Prelude.Eq.{Text, codes, text_eq}
use orvixa.Prelude.Dict.{Dict, lookup}
use orvixa.Prelude.Float.{fmin, fmax}
use orvixa.Prelude.Float.Fixed.{Fixed, fixed_float, runs}
use orvixa.Prelude.Float.Lawful.{Fixed-IsOrdered}
use orvixa.Feeds.Sim.{SymbolState, Generator, new_state, round_of}
use orvixa.Feeds.Sim.Bars.{IsBar, round_of-IsBar}

-- Draws a half each time, and counts the draws.
abbrev halves : Generator Fixed ℕ
halves = record { random = λ n. (pos 5_000, n + 1); now = λ n. n }

abbrev states : Dict Text (SymbolState Fixed)
states = (codes "BTCUSDT", (new_state halves (codes "BTCUSDT") 0).0) ∷ []

round_of-IsBar_example : All IsBar (round_of halves states 1).0
unfolding round_of new_state lookup runs fmin fmax
round_of-IsBar_example = round_of-IsBar Fixed-IsOrdered halves states 1 ((refl, refl), tt)
