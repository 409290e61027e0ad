-- ===== src/Feeds/Symbol.antt =====
-- `normalize_symbol` and `to_stream_symbol` (src/orvixa/feeds/normalize.py). Texts are lists of code
-- points, and the case of a letter is that of ASCII, in which exchange pairs are written.
pub mod RoundTrip
mod Tests
use orvixa.Prelude.{
  ℕ, ◌+◌, ◌-◌, Bool, ◌&&◌, List, [], ◌∷◌, map, length, take, drop, ltb, leb, if◌then◌else◌,
}
use orvixa.Prelude.Eq.{Text, codes, text_beq}

unfoldable pub to_upper : ℕ → ℕ
to_upper c = if leb b'a' c && leb c b'z' then c - 32 else c

unfoldable pub to_lower : ℕ → ℕ
to_lower c = if leb b'A' c && leb c b'Z' then c + 32 else c

-- `str.upper` and `str.lower`
abbrev pub upper : Text → Text
upper = map to_upper

abbrev pub lower : Text → Text
lower = map to_lower

-- `text.startswith(prefix)` and `text.endswith(suffix)`
unfoldable pub starts_with : Text → Text → Bool
starts_with prefix text = text_beq (take (length prefix) text) prefix

unfoldable pub ends_with : Text → Text → Bool
ends_with suffix text =
    leb (length suffix) (length text) && text_beq (drop (length text - length suffix) text) suffix

abbrev pub quote_suffixes : List Text
quote_suffixes = codes "USDT" ∷ codes "FDUSD" ∷ codes "USDC" ∷ codes "BUSD" ∷ codes "TUSD" ∷ []

abbrev pub thousand_prefix : Text
thousand_prefix = codes "1000"

-- The `for` over the suffixes, which stops at the first that is taken off.
unfoldable pub strip_quote : List Text → Text → Text
unfolding ends_with
strip_quote [] text = text
strip_quote (suffix ∷ suffixes) text =
    if ends_with suffix text && ltb (length suffix) (length text)
    then take (length text - length suffix) text
    else strip_quote suffixes text

unfoldable pub strip_thousand : Text → Text
unfolding starts_with
strip_thousand text =
    if starts_with thousand_prefix text && ltb (length thousand_prefix) (length text)
    then drop (length thousand_prefix) text
    else text

unfoldable pub normalize_symbol : Text → Text
unfolding to_upper strip_quote strip_thousand
normalize_symbol pair = strip_thousand (strip_quote quote_suffixes (upper pair))

unfoldable pub to_stream_symbol : Text → Text
unfolding to_lower
to_stream_symbol pair = lower pair
