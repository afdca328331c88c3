-- ===== src/Common/Text.antt =====
-- Python texts: length and slices in characters, `in`, sorting, joining, decimal numbers.
use Prim.Native.Nat.{ℕ, zero, suc, ◌/◌, ◌%◌, Ordering}
use Prim.Native.Char.{code}
use Prim.Native.String
use Prim.Native.String.{String, ◌++◌ as ◌<>◌}
use mathlib.Core.Bool.{Bool, true, false, not, ◌&&◌, ◌||◌}
use mathlib.Core.List.{List, [], ◌∷◌}
use mathlib.Core.Option.{Option, none, some}
use package.aiops_rca_orchestrator.Common.Tests.{◌==◌, ◌=ₜ◌, leb, ltb, if◌then◌else◌}
pub use Prim.Native.String.{◌++◌ as ◌<>◌}

-- `len(text)`, in code points.
unfoldable pub text_length : String → ℕ
text_length String.[] = 0
text_length (String.◌∷◌ c s) = suc (text_length s)

-- `text[:n]`
unfoldable pub text_take : ℕ → String → String
text_take zero s = ""
text_take (suc n) String.[] = ""
text_take (suc n) (String.◌∷◌ c s) = String.◌∷◌ c (text_take n s)

-- `text in values`
abbrev pub contains : List String → String → Bool
contains [] t = false
contains (s ∷ ss) t = t =ₜ s || contains ss t

-- `separator.join(parts)`
unfoldable pub join : String → List String → String
join separator [] = ""
join separator (s ∷ []) = s
join separator (s ∷ t ∷ ss) = s <> (separator <> join separator (t ∷ ss))

-- Texts are ordered by their code points, as `sorted` orders them.
unfoldable pub text_le : String → String → Bool
text_le s t = elim (String.compare s t) [ Ordering.gt ↦ false | _ ↦ true ]

insert_sorted : String → List String → List String
unfolding text_le
insert_sorted s [] = s ∷ []
insert_sorted s (t ∷ ts) = if text_le s t then s ∷ t ∷ ts else t ∷ insert_sorted s ts

-- `sorted(texts)`
unfoldable pub sort : List String → List String
unfolding insert_sorted
sort [] = []
sort (s ∷ ss) = insert_sorted s (sort ss)

-- `list(dict.fromkeys(texts))`, with what was seen so far.
abbrev pub dedupe_from : List String → List String → List String
dedupe_from seen [] = []
dedupe_from seen (s ∷ ss) =
    let new = s ∷ dedupe_from (s ∷ seen) ss in
    let old = dedupe_from seen ss in if contains seen s then old else new

digit : ℕ → String
digit n =
    if n == 0
    then "0"
    else if n == 1
    then "1"
    else if n == 2
    then "2"
    else if n == 3
    then "3"
    else if n == 4
    then "4"
    else if n == 5
    then "5"
    else if n == 6
    then "6"
    else if n == 7
    then "7"
    else if n == 8
    then "8"
    else "9"

-- The decimal digits of `n` before `out`; a number has at most as many digits as the fuel.
decimal_from : ℕ → ℕ → String → String
unfolding digit
decimal_from zero n out = out
decimal_from (suc fuel) n out =
    let longer = digit (n % 10) <> out in
    let rest = decimal_from fuel (n / 10) longer in if n / 10 == 0 then longer else rest

-- `str(n)`
unfoldable pub decimal : ℕ → String
unfolding decimal_from
decimal n = decimal_from (suc n) n ""

-- The last three digits of `n`, with leading zeros.
three_digits : ℕ → String
unfolding digit
three_digits n = digit (n / 100 % 10) <> (digit (n / 10 % 10) <> digit (n % 10))

grouped_from : ℕ → ℕ → String → String
unfolding three_digits decimal
grouped_from zero n out = out
grouped_from (suc fuel) n out =
    let rest = grouped_from fuel (n / 1000) ("," <> (three_digits (n % 1000) <> out)) in
    if ltb n 1000 then decimal n <> out else rest

-- `f"{n:,}"`
unfoldable pub grouped : ℕ → String
unfolding grouped_from
grouped n = grouped_from (suc n) n ""

-- Whether the text begins with `prefix` and goes on with at least one more character of its line.
unfoldable pub begins_before : String → String → Bool
begins_before String.[] String.[] = false
begins_before String.[] (String.◌∷◌ d t) = not (code d == b'\n')
begins_before (String.◌∷◌ c s) String.[] = false
begins_before (String.◌∷◌ c s) (String.◌∷◌ d t) = code c == code d && begins_before s t

-- `text.startswith(prefix)`
unfoldable pub starts_with : String → String → Bool
starts_with String.[] t = true
starts_with (String.◌∷◌ c s) String.[] = false
starts_with (String.◌∷◌ c s) (String.◌∷◌ d t) = code c == code d && starts_with s t

-- `part in text`
unfoldable pub text_contains : String → String → Bool
unfolding starts_with
text_contains part String.[] = starts_with part ""
text_contains part (String.◌∷◌ c s) = starts_with part (String.◌∷◌ c s) || text_contains part s

-- Whether a field's length lies in its declared bounds.
unfoldable pub within : ℕ → ℕ → String → Bool
unfolding text_length
within least most s = leb least (text_length s) && leb (text_length s) most

-- The same for a field that may be `None`.
unfoldable pub within_optional : ℕ → ℕ → Option String → Bool
unfolding within
within_optional least most none = true
within_optional least most (some s) = within least most s

-- Equality of optional texts.
abbrev pub optional_eq : Option String → Option String → Bool
optional_eq none none = true
optional_eq (some s) (some t) = s =ₜ t
optional_eq _ _ = false

-- `text[text.find("["):]`, if there is one.
unfoldable pub from_bracket : String → Option String
from_bracket String.[] = none
from_bracket (String.◌∷◌ c s) = if code c == b'[' then some (String.◌∷◌ c s) else from_bracket s

-- `text[: text.find("[")] if "[" in text else ""`
unfoldable pub before_bracket : String → String
unfolding from_bracket
before_bracket String.[] = ""
before_bracket (String.◌∷◌ c s) =
    if code c == b'['
    then ""
    else elim (from_bracket s) [ none ↦ "" | some rest ↦ String.◌∷◌ c (before_bracket s) ]

lower : ℕ → Bool
lower c = leb b'a' c && leb c b'z'

-- How many characters follow, if they are all lower-case letters, digits or underscores.
word_length : String → Option ℕ
unfolding lower
word_length String.[] = some 0
word_length (String.◌∷◌ c s) =
    let word = lower (code c) || (leb b'0' (code c) && leb (code c) b'9' || code c == b'_') in
    elim (word_length s) [ none ↦ none | some n ↦ if word then some (suc n) else none ]

from_two_to_63 : Option ℕ → Bool
from_two_to_63 none = false
from_two_to_63 (some n) = leb 2 n && leb n 63

-- Whether the pattern `^[a-z][a-z0-9_]{2,63}$` matches.
unfoldable pub matches_template_id : String → Bool
unfolding lower word_length from_two_to_63
matches_template_id String.[] = false
matches_template_id (String.◌∷◌ c s) = lower (code c) && from_two_to_63 (word_length s)
