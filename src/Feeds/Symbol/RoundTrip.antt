-- ===== src/Feeds/Symbol/RoundTrip.antt =====
-- The asset of an exchange pair is found again.
use orvixa.Prelude.{
  length-map, length-drop, length-take, ◌<◌, ◌∙◌, map-append, false, ◌≤◌, ◌-◌, ◌≡◌, ◌≢◌, refl, ap,
  true, List, [], ◌∷◌, ◌++◌, length, length-append, take, drop, arith,
}
use orvixa.Prelude.Eq.{Text, text_beq_iff}
use orvixa.Feeds.Symbol.{
  quote_suffixes, to_stream_symbol, ℕ, starts_with, thousand_prefix, lower, codes, to_lower, upper,
  to_upper, normalize_symbol, strip_thousand, ends_with, strip_quote,
}

take-append {ℓ} : {A : Type ℓ} (xs ys : List A) → take (length xs) (xs ++ ys) ≡ xs
take-append [] ys = refl
take-append (x ∷ xs) ys = ap (λ t. x ∷ t) (take-append xs ys)

drop-append {ℓ} : {A : Type ℓ} (xs ys : List A) → drop (length xs) (xs ++ ys) ≡ ys
drop-append [] ys = refl
drop-append (x ∷ xs) ys = drop-append xs ys

length-append-sub {ℓ} : {A : Type ℓ} (xs ys : List A) → length (xs ++ ys) - length ys ≡ length xs
length-append-sub xs ys = omega (arith, length-append xs ys)

ends_with-append : (base suffix : Text) → ends_with suffix (base ++ suffix) ≡ true
unfolding ends_with
ends_with-append base suffix =
    rw (length-append-sub base suffix, drop-append base suffix)
      (ground (arith, length-append base suffix, text_beq_iff suffix suffix))

strip_quote-append :
    (base suffix : Text) (suffixes : List Text)
    → base ≢ []
    → strip_quote (suffix ∷ suffixes) (base ++ suffix) ≡ base
unfolding strip_quote
strip_quote-append [] suffix suffixes h = absurd (h refl)
strip_quote-append (c ∷ base) suffix suffixes h = rw (ends_with-append (c ∷ base) suffix) (
    ground (
      arith,
      length-append-sub (c ∷ base) suffix,
      take-append (c ∷ base) suffix,
      length-append base suffix,
    ))

abbrev other_suffixes : List Text
other_suffixes = codes "FDUSD" ∷ codes "USDC" ∷ codes "BUSD" ∷ codes "TUSD" ∷ []

normalize_symbol-quoted :
    (base : Text)
    → upper base ≡ base
    → base ≢ []
    → normalize_symbol (base ++ codes "USDT") ≡ strip_thousand base
unfolding normalize_symbol
normalize_symbol-quoted base u h =
    let e : upper (base ++ codes "USDT") ≡ base ++ codes "USDT" =
      map-append to_upper base (codes "USDT") ∙ ap (λ t. t ++ codes "USDT") u in
    rw e (ap strip_thousand (strip_quote-append base (codes "USDT") other_suffixes h))

strip_thousand-append : (base : Text) → base ≢ [] → strip_thousand (thousand_prefix ++ base) ≡ base
unfolding strip_thousand
strip_thousand-append [] h = absurd (h refl)
strip_thousand-append (c ∷ base) h = ground arith

strip_thousand_none :
    (text : Text) → starts_with thousand_prefix text ≡ false → strip_thousand text ≡ text
unfolding strip_thousand
strip_thousand_none text k = ground arith

-- An upper-case asset that does not start with "1000" is found again from its USDT pair, and from the
-- pair that carries the multiplier 1000.
pub normalize_symbol-pair :
    (base : Text)
    → upper base ≡ base
    → base ≢ []
    → starts_with thousand_prefix base ≡ false
    → (normalize_symbol (base ++ codes "USDT") ≡ base)
      × (normalize_symbol (thousand_prefix ++ base ++ codes "USDT") ≡ base)
unfolding to_upper
normalize_symbol-pair base u h k = (
  normalize_symbol-quoted base u h ∙ plain,
  normalize_symbol-quoted (thousand_prefix ++ base) (ap (λ t. thousand_prefix ++ t) u) (λ e. cc)
      ∙ strip_thousand-append base h,
)
  where
    plain : strip_thousand base ≡ base
    plain = strip_thousand_none base k

to_upper-to_upper : (c : ℕ) → to_upper (to_upper c) ≡ to_upper c
unfolding to_upper
to_upper-to_upper c = ground arith

to_upper-to_lower : (c : ℕ) → to_upper (to_lower c) ≡ to_upper c
unfolding to_upper to_lower
to_upper-to_lower c = ground arith

upper-upper : (s : Text) → upper (upper s) ≡ upper s
upper-upper [] = refl
upper-upper (c ∷ s) = cc (to_upper-to_upper c, upper-upper s)

upper-lower : (s : Text) → upper (lower s) ≡ upper s
upper-lower [] = refl
upper-lower (c ∷ s) = cc (to_upper-to_lower c, upper-lower s)

-- A text that is not empty, cut from one that is not longer.
abbrev pub Within : Text → Text → Type 0
Within s t = (0 < length s) × (length s ≤ length t)

strip_quote-Within :
    (suffixes : List Text) (text : Text) → 0 < length text → Within (strip_quote suffixes text) text
unfolding strip_quote
strip_quote-Within [] text h = (h, omega arith)
strip_quote-Within (suffix ∷ suffixes) text h =
    ground
      (arith, strip_quote-Within suffixes text h, length-take (length text - length suffix) text)

strip_thousand-Within : (text : Text) → 0 < length text → Within (strip_thousand text) text
unfolding strip_thousand
strip_thousand-Within text h = ground (arith, length-drop 4 text)

-- `normalize_symbol` ignores the case of its pair, also through the stream name that is made of it.
pub normalize_symbol_case :
    (pair : Text)
    → (normalize_symbol (upper pair) ≡ normalize_symbol pair)
      × (normalize_symbol (to_stream_symbol pair) ≡ normalize_symbol pair)
unfolding normalize_symbol to_stream_symbol
normalize_symbol_case pair = (ap strip_all (upper-upper pair), ap strip_all (upper-lower pair))
  where
    strip_all : Text → Text
    strip_all text = strip_thousand (strip_quote quote_suffixes text)

-- The symbol of a pair that is not empty is not empty, and no longer than the pair.
pub normalize_symbol-Within : (pair : Text) → 0 < length pair → Within (normalize_symbol pair) pair
unfolding normalize_symbol
normalize_symbol-Within pair h =
    let q =
      strip_quote-Within quote_suffixes (upper pair) (omega (arith, length-map pair to_upper)) in
    let t = strip_thousand-Within (strip_quote quote_suffixes (upper pair)) q.0 in
    omega (arith, length-map pair to_upper)
