-- ===== src/Scenario/Texts.antt =====
-- Texts of a scenario: words, rates and durations (scenario.py, `_RATE_RE` and `_DUR_RE`).
use Prim.Native.Char.{Char, code}
use srv6_ai_fabric.Prelude.{
  ◌||◌, ℕ, List, Bool, Option, String, [], false, if◌then◌else◌, leb, none, some, true, ◌&&◌, ◌*◌,
  ◌+◌, ◌-◌, ◌==◌, ◌∷◌,
}
use srv6_ai_fabric.Topo.Addresses.{cat}

-- ASCII white space
abbrev pub is_space : ℕ → Bool
is_space c = (c == b' ') || (leb 9 c && leb c 13)

-- A word that ends, if it has begun.
abbrev close : String → List String → List String
close String.[] rest = rest
close (String.◌∷◌ c s) rest = String.◌∷◌ c s ∷ rest

-- `s.split()`; `word` is the word that has begun.
unfoldable pub words_from : String → String → List String
words_from word String.[] = close word []
words_from word (String.◌∷◌ c s) =
    let inside = words_from (cat word (String.◌∷◌ c String.[])) s in
    let next = words_from String.[] s in if is_space (code c) then close word next else inside

abbrev pub words : String → List String
words = words_from String.[]

abbrev pub is_digit : ℕ → Bool
is_digit c = leb b'0' c && leb c b'9'

-- `\s*`, then the rest
unfoldable pub skip_space : String → String
skip_space String.[] = String.[]
skip_space (String.◌∷◌ c s) =
    let rest = skip_space s in if is_space (code c) then rest else String.◌∷◌ c s

-- `\d*` with the number before it, and the rest
unfoldable pub number_from : ℕ → String → ℕ × String
number_from n String.[] = (n, String.[])
number_from n (String.◌∷◌ c s) =
    let more = number_from (n * 10 + (code c - b'0')) s in
    if is_digit (code c) then more else (n, String.◌∷◌ c s)

-- `\d+`
unfoldable pub number : String → Option (ℕ × String)
number String.[] = none
number (String.◌∷◌ c s) = if is_digit (code c) then some (number_from 0 (String.◌∷◌ c s)) else none

-- Only white space is left.
unfoldable pub blank : String → Bool
blank String.[] = true
blank (String.◌∷◌ c s) = is_space (code c) && blank s

-- A letter, small or capital.
abbrev letter : ℕ → ℕ → Bool
letter small c = (c == small) || (c == small - 32)

-- `(?:pps?)?\s*$`
unfoldable pub pps : String → Bool
pps (String.◌∷◌ a (String.◌∷◌ b s)) =
    if letter b'p' (code a) && letter b'p' (code b)
    then blank s || pps_plural s
    else blank (String.◌∷◌ a (String.◌∷◌ b s))
  where
    pps_plural : String → Bool
    pps_plural String.[] = false
    pps_plural (String.◌∷◌ c s) = letter b's' (code c) && blank s
pps s = blank s

-- `_RATE_RE`, its number
unfoldable pub rate_text : String → Option ℕ
rate_text s = elim (number (skip_space s)) [
  | none ↦ none
  | some (n, rest) ↦ if pps (skip_space rest) then some n else none
]

-- `\d+` as it is written, and the rest
unfoldable pub digits_of : String → String × String
digits_of String.[] = (String.[], String.[])
digits_of (String.◌∷◌ c s) =
    let more = digits_of s in
    if is_digit (code c) then (String.◌∷◌ c (more.0), more.1) else (String.[], String.◌∷◌ c s)

-- A fraction behind the whole digits, if the text goes on with a point and a digit.
abbrev with_fraction : String → Char → String → String × String → String × String
with_fraction whole c s (String.[], rest) = (whole, String.◌∷◌ c s)
with_fraction whole c s (String.◌∷◌ d ds, rest) =
    if code c == b'.'
    then (cat whole (String.◌∷◌ c (String.◌∷◌ d ds)), rest)
    else (whole, String.◌∷◌ c s)

-- `(?:\.\d+)?` behind the digits
unfoldable pub fraction_of : String × String → String × String
fraction_of (whole, String.[]) = (whole, String.[])
fraction_of (whole, String.◌∷◌ c s) = with_fraction whole c s (digits_of s)

-- `(ms|s)?\s*$`: is it in milliseconds?
unfoldable pub unit_of : String → Option Bool
unit_of String.[] = some false
unit_of (String.◌∷◌ a String.[]) =
    if letter b's' (code a) || is_space (code a) then some false else none
unit_of (String.◌∷◌ a (String.◌∷◌ b s)) =
    if letter b'm' (code a) && letter b's' (code b)
    then if blank s then some true else none
    else if letter b's' (code a) || is_space (code a)
    then if blank (String.◌∷◌ b s) then some false else none
    else none

abbrev with_unit : String → Option Bool → Option (String × Bool)
with_unit String.[] unit = none
with_unit (String.◌∷◌ c written) none = none
with_unit (String.◌∷◌ c written) (some milli) = some (String.◌∷◌ c written, milli)

-- `_DUR_RE`: the number as it is written, and whether it is in milliseconds. A number has a digit first.
unfoldable pub duration_text : String → Option (String × Bool)
duration_text s =
    let read = digits_of (skip_space s) in
    let whole = fraction_of read in
    if blank_text (read.0) then none else with_unit (whole.0) (unit_of (skip_space (whole.1)))
  where
    blank_text : String → Bool
    blank_text String.[] = true
    blank_text (String.◌∷◌ c s) = false
