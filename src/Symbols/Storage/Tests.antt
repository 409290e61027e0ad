-- ===== src/Symbols/Storage/Tests.antt =====
-- A restart with a promoted symbol.
use orvixa.Prelude.{true, ◌↔◌, ◌≡◌, refl, [], ◌∷◌, some}
use orvixa.Prelude.Eq.{Text, codes, text_eq}
use orvixa.Prelude.Dict.{Dict, lookup}
use orvixa.Prelude.Sets.{member}
use orvixa.Prelude.Float.Fixed.{Fixed, fixed_float}
use orvixa.Symbols.Models.{SymbolState, new_state, alt, trading, klass, spike}
use orvixa.Symbols.Storage.{load_existing}
use orvixa.Symbols.Storage.Restored.{rows_of, Returns, HadSpike, load_existing-row_of_state}

abbrev promoted_one : SymbolState Fixed
promoted_one = record (new_state (codes "WIF") (codes "WIFUSDT") 1 alt trading) {
  tags = klass alt ∷ spike ∷ [];
  rank = some 40;
  calm_cycles = 1;
}

abbrev states : Dict Text (SymbolState Fixed)
states = (codes "WIF", promoted_one) ∷ []

load_existing-row_of_state_example :
    let (states', promoted') = load_existing {F = Fixed} (rows_of states) [] [] in
    Returns (lookup (codes "WIF") states) (lookup (codes "WIF") states')
    × ((member (codes "WIF") promoted' ≡ true) ↔ HadSpike (lookup (codes "WIF") states))
unfolding lookup new_state
load_existing-row_of_state_example =
    load_existing-row_of_state states (codes "WIF") (refl, tt) (refl, tt)
