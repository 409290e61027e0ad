-- ===== src/Backtest/Runs/Supported.antt =====
-- The figures of a regime cell that support a decision to allow.
use orvixa.Prelude.{length, ℕ, ◌≡◌, ◌∙◌, ap, true, false, Option, some}
use orvixa.Prelude.Eq.{text_eq, ℕ_eq}
use orvixa.Prelude.Dict.{lookup}
use orvixa.Prelude.Result.{key_error, or_raise, ok, ok-bind, or_raise-ok}
use orvixa.Prelude.Float.{Float, of_ℕ}
use orvixa.Backtest.Policy.{Validity, RegimeCell, PolicyDecision, decide, allow, spans_zero}
use orvixa.Backtest.Policy.Decided.{both_signed, decide_allow_lem}
use orvixa.Backtest.RegimeMetrics.{Tagged}
use orvixa.Backtest.RegimeMetrics.Grouped.{clustered_number}
use orvixa.Backtest.RegimeMetrics.Labelled.{IsLabelled}

module _ {ℓ} {F : Type ℓ} ⦃f : Float F⦄ where
  -- A decision is made on a cell with a label.
  pub has_label :
      (cell : RegimeCell F) (global : Option F) (horizon : ℕ) (d : PolicyDecision F)
      → decide cell global horizon ≡ ok d
      → (label : Validity) × (lookup horizon cell.classification ≡ some label)
  unfolding decide
  has_label cell global horizon d e =
      let (label, found, _) = ok-bind (or_raise key_error (lookup horizon cell.classification)) e in
      (label, or_raise-ok key_error (lookup horizon cell.classification) found)

  -- The figures of a cell that support a decision to allow: `r` is the edge in the regime and `g` the
  -- global edge, and `tagged` are the signals of the cell with their cluster tags.
  pub record Supports (tagged : Tagged F) (cell : RegimeCell F) (horizon : ℕ) (global : Option F)
      : Type ℓ where
    pub n : F
    pub l : F
    pub u : F
    pub r : F
    pub g : F
    pub neff_there : lookup horizon cell.neff ≡ some (some n)
    pub low_there : lookup horizon cell.edge_ci_low ≡ some (some l)
    pub high_there : lookup horizon cell.edge_ci_high ≡ some (some u)
    pub edge_there : lookup horizon cell.edge ≡ some (some r)
    pub global_there : global ≡ some g
    pub counted : cell.sample_size ≡ length tagged
    pub enough : f.lt n (of_ℕ 5) ≡ false
    pub excludes_zero : spans_zero l u ≡ false
    pub isolated :
        f.lt (f.lit 5 10) (f.div (of_ℕ (clustered_number tagged)) (of_ℕ (length tagged))) ≡ false
    pub agrees : both_signed r g ≡ true

  pub allow-Supports :
      (tagged : Tagged F) (cell : RegimeCell F) (global : Option F) (horizon : ℕ)
      (d : PolicyDecision F)
      → IsLabelled tagged cell horizon
      → decide cell global horizon ≡ ok d
      → d.decision ≡ allow
      → Supports tagged cell horizon global
  allow-Supports tagged cell global horizon d (neff, low, high, edge, rounded, counted, c) e a =
      let (n, l, u, r, g, hn, hl, hu, hr, hg, e0, e1, e2, e3) =
        decide_allow_lem cell global horizon {d = d} c e a in
      record {
        n = n;
        l = l;
        u = u;
        r = r;
        g = g;
        neff_there = c.neff_there ∙ ap some hn;
        low_there = c.low_there ∙ ap some hl;
        high_there = c.high_there ∙ ap some hu;
        edge_there = c.edge_there ∙ ap some hr;
        global_there = hg;
        counted = counted;
        enough = e0;
        excludes_zero = e1;
        isolated = e2;
        agrees = e3;
      }
