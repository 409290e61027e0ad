-- ===== src/Config/Csv.antt =====
-- The round trip of symbol lists through comma-separated text, and the symbols without duplicates.
use orvixa.Prelude.{
  ℕ, ◌≡◌, refl, ◌∙◌, ap, Bool, true, false, not, ◌&&◌, ◌||◌, ◌==◌, List, [], ◌∷◌, ◌++◌, map, All,
  select, arith,
}
use orvixa.Prelude.Eq.{Text, text_eq, text_beq_iff}
use orvixa.Prelude.Sets.{member, union, include, member-union, member-append, member_none}
use orvixa.Feeds.Symbol.{upper}
use orvixa.Config.{
  Settings, is_space, is_empty, strip_left, strip_right, strip, to_first, split, text, split_csv,
  all_symbols,
}

-- A character that an item may have: no comma and no space.
unfoldable pub is_plain : ℕ → Bool
is_plain c = not (c == b',') && not (is_space c)

-- An item that the lists can hold: not empty, upper case, of such characters.
pub record IsItem (item : Text) : Type 0 where
  pub nonempty : is_empty item ≡ false
  pub upper_case : upper item ≡ item
  pub plain : All (λ c. is_plain c ≡ true) item

-- The text of a list, with a comma and a space between the items.
abbrev pub print : List Text → Text
print [] = []
print (item ∷ []) = item
print (item ∷ next ∷ items) = item ++ b',' ∷ b' ' ∷ print (next ∷ items)

strip_left-plain : (item : Text) → All (λ c. is_plain c ≡ true) item → strip_left item ≡ item
unfolding strip_left is_plain
strip_left-plain [] h = refl
strip_left-plain (c ∷ item) (h, hs) = ground arith

strip_right-plain : (item : Text) → All (λ c. is_plain c ≡ true) item → strip_right item ≡ item
unfolding strip_right is_plain
strip_right-plain [] h = refl
strip_right-plain (c ∷ item) (h, hs) = ground (arith, strip_right-plain item hs)

strip-plain :
    (item : Text)
    → All (λ c. is_plain c ≡ true) item
    → (strip item ≡ item) × (strip (b' ' ∷ item) ≡ item)
unfolding strip strip_left is_space
strip-plain item h = (
  ground (arith, strip_left-plain item h, strip_right-plain item h),
  ground (arith, strip_left-plain item h, strip_right-plain item h),
)

split-plain : (item : Text) → All (λ c. is_plain c ≡ true) item → split item ≡ item ∷ []
unfolding split to_first is_plain
split-plain [] h = refl
split-plain (c ∷ item) (h, hs) = ground (arith, split-plain item hs)

split-comma :
    (item rest : Text)
    → All (λ c. is_plain c ≡ true) item
    → split (item ++ b',' ∷ rest) ≡ item ∷ split rest
unfolding split to_first is_plain
split-comma [] rest h = refl
split-comma (c ∷ item) rest (h, hs) = ground (arith, split-comma item rest hs)

-- What becomes of the parts of the text.
kept : List Text → List Text
kept parts = map (λ item. upper (strip item)) (select (λ item. not (is_empty (strip item))) parts)

kept_none : kept [] ≡ []
unfolding kept
kept_none = refl

kept-item :
    (item : Text) (parts : List Text)
    → IsItem item
    → (kept (item ∷ parts) ≡ item ∷ kept parts) × (kept ((b' ' ∷ item) ∷ parts) ≡ item ∷ kept parts)
unfolding kept
kept-item item parts h =
    let (bare, spaced) = strip-plain item h.plain in
    (
      ground (arith, bare, h.nonempty, h.upper_case),
      ground (arith, spaced, h.nonempty, h.upper_case),
    )

-- The parts of the text, and of the text behind a space.
split-print :
    (item : Text) (items : List Text)
    → All IsItem (item ∷ items)
    → (kept (split (print (item ∷ items))) ≡ item ∷ items)
      × (kept (to_first b' ' (split (print (item ∷ items)))) ≡ item ∷ items)
unfolding to_first
split-print item [] (h, _) =
    let (bare, spaced) = kept-item item [] h in
    (
      ground (arith, split-plain item h.plain, bare, kept_none),
      ground (arith, split-plain item h.plain, spaced, kept_none),
    )
split-print item (next ∷ items) (h, hs) =
    let (_, rest) = split-print next items hs in
    let tail = to_first b' ' (split (print (next ∷ items))) in
    let parts : split (print (item ∷ next ∷ items)) ≡ item ∷ tail =
      split-comma item (b' ' ∷ print (next ∷ items)) h.plain ∙ unfold split in refl in
    let (bare, spaced) = kept-item item tail h in
    (
      ap kept parts ∙ bare ∙ ap (λ t. item ∷ t) rest,
      ap (λ t. kept (to_first b' ' t)) parts ∙ spaced ∙ ap (λ t. item ∷ t) rest,
    )

-- A list of items that are not empty, in upper case, and free of commas and spaces is read back from
-- its text with a comma and a space between the items.
pub split_csv-print :
    (items : List Text) → All IsItem items → split_csv (text (print items)) ≡ items
unfolding split_csv kept
split_csv-print [] h = unfold split strip in refl
split_csv-print (item ∷ items) h = (split-print item items h).0

pub no_duplicates : List Text → Bool
no_duplicates [] = true
no_duplicates (a ∷ s) = not (member a s) && no_duplicates s

no_duplicates-append :
    (a : Text) (s : List Text)
    → no_duplicates s ≡ true
    → member a s ≡ false
    → no_duplicates (s ++ a ∷ []) ≡ true
unfolding no_duplicates member
no_duplicates-append a [] h m = refl
no_duplicates-append a (b ∷ s) h m = ground (
  arith,
  no_duplicates-append a s,
  member-append b s (a ∷ []),
  text_beq_iff a b,
  text_beq_iff b a,
)

no_duplicates-include :
    (a : Text) (s : List Text) → no_duplicates s ≡ true → no_duplicates (include a s) ≡ true
unfolding include
no_duplicates-include a s h = ground (arith, no_duplicates-append a s h)

no_duplicates-union : (s t : List Text) → no_duplicates s ≡ true → no_duplicates (union s t) ≡ true
unfolding union
no_duplicates-union s [] h = h
no_duplicates-union s (a ∷ t) h = no_duplicates-union (include a s) t (no_duplicates-include a s h)

-- `all_symbols` has each of the core and seed symbols once, and no others.
pub all_symbols_distinct :
    (s : Settings) (symbol : Text)
    → (no_duplicates (all_symbols s) ≡ true)
      × (member symbol (all_symbols s)
          ≡ (member symbol s.core_symbols || member symbol s.seed_symbols))
unfolding all_symbols no_duplicates
all_symbols_distinct s symbol = (
  no_duplicates-union [] (s.core_symbols ++ s.seed_symbols) refl,
  ground (
    arith,
    member-union symbol [] (s.core_symbols ++ s.seed_symbols),
    member_none symbol,
    member-append symbol s.core_symbols s.seed_symbols,
  ),
)
