-- ===== src/Base/Text.antt =====
-- Python's `str` operations that the source uses, on code points. `lower` maps the ASCII letters: of
-- the other characters none becomes a letter of the words that are compared with.
use Prim.Native.Nat.{ℕ, ◌+◌, ◌-◌, ◌*◌}
use Prim.Native.Char.{code}
use Prim.Native.String.{String}
use mathlib.Core.Bool.{Bool, true, false, ◌&&◌, ◌||◌}
use mathlib.Core.Option.{Option, none, some}
use mathlib.Core.List.{List, [], ◌∷◌, map}
use hass_comelit_intercom_lo.Base.Tests.{leb, ◌==◌, if◌then◌else◌}
use hass_comelit_intercom_lo.Base.Results.{Result, ok, err, value_error}
use hass_comelit_intercom_lo.Base.Bytes.{Str}

-- The code points of a literal.
abbrev pub codes : String → Str
codes String.[] = []
codes (String.◌∷◌ c s) = code c ∷ codes s

-- s.startswith(prefix), and prefix in s
unfoldable pub starts_with : Str → Str → Bool
starts_with [] s = true
starts_with (c ∷ prefix) [] = false
starts_with (c ∷ prefix) (d ∷ s) = c == d && starts_with prefix s

unfoldable pub contains : Str → Str → Bool
unfolding starts_with
contains word [] = starts_with word []
contains word (c ∷ s) = starts_with word (c ∷ s) || contains word s

abbrev pub cons_head : ℕ → List Str → List Str
cons_head c [] = (c ∷ []) ∷ []
cons_head c (part ∷ parts) = (c ∷ part) ∷ parts

-- The parts between the separators, of which there is always at least one.
unfoldable pub split_by : (ℕ → Bool) → Str → List Str
split_by separates [] = [] ∷ []
split_by separates (c ∷ s) =
    let parts = split_by separates s in if separates c then [] ∷ parts else cons_head c parts

-- s.split("\r\n")
unfoldable pub split_lines : Str → List Str
split_lines [] = [] ∷ []
split_lines (c ∷ []) = (c ∷ []) ∷ []
split_lines (c ∷ d ∷ s) = elim (c == 13 && d == 10) [
  | true ↦ [] ∷ split_lines s
  | false ↦ cons_head c (split_lines (d ∷ s))
]

-- s.split(separator, 1), where the separator stands in the text
unfoldable pub split_once : ℕ → Str → Option (Str × Str)
split_once separator [] = none
split_once separator (c ∷ s) =
    if c == separator
    then some ([], s)
    else elim (split_once separator s) [ none ↦ none | some (a, b) ↦ some (c ∷ a, b) ]

-- s.split(separator)[0]
unfoldable pub before : ℕ → Str → Str
before separator [] = []
before separator (c ∷ s) = if c == separator then [] else c ∷ before separator s

-- str.isspace
unfoldable pub is_space : ℕ → Bool
is_space c =
    (leb 9 c && leb c 13)
    || (leb 28 c && leb c 32)
    || c == 0x85
    || c == 0xa0
    || c == 0x1680
    || (leb 0x2000 c && leb c 0x200a)
    || c == 0x2028
    || c == 0x2029
    || c == 0x202f
    || c == 0x205f
    || c == 0x3000

abbrev pub is_empty : Str → Bool
is_empty [] = true
is_empty (c ∷ s) = false

unfoldable pub drop_empty : List Str → List Str
drop_empty [] = []
drop_empty (part ∷ parts) = if is_empty part then drop_empty parts else part ∷ drop_empty parts

-- s.split()
unfoldable pub words : Str → List Str
unfolding split_by is_space drop_empty
words s = drop_empty (split_by is_space s)

unfoldable pub left_strip : Str → Str
unfolding is_space
left_strip [] = []
left_strip (c ∷ s) = if is_space c then left_strip s else c ∷ s

unfoldable pub right_strip : Str → Str
unfolding is_space
right_strip [] = []
right_strip (c ∷ s) =
    let rest = right_strip s in if is_space c && is_empty rest then [] else c ∷ rest

-- s.strip()
unfoldable pub strip : Str → Str
unfolding left_strip right_strip
strip s = right_strip (left_strip s)

-- s.lower()
unfoldable pub lower : Str → Str
lower s = map (λ c. if leb 65 c && leb c 90 then c + 32 else c) s

abbrev pub is_digit : ℕ → Bool
is_digit c = leb 48 c && leb c 57

-- The digits behind a number that was read so far. An underscore may stand between two digits.
unfoldable pub number_from : ℕ → Bool → Str → Option ℕ
number_from n after_digit [] = if after_digit then some n else none
number_from n after_digit (c ∷ s) =
    if is_digit c || (c == b'_' && after_digit)
    then number_from (if is_digit c then n * 10 + (c - 48) else n) (is_digit c) s
    else none

abbrev pub unsigned : Str → Str
unsigned [] = []
unsigned (c ∷ s) = if c == b'+' then s else c ∷ s

abbrev pub or_value_error : Option ℕ → Result ℕ
or_value_error none = err value_error
or_value_error (some n) = ok n

-- int(s) of a text with no minus sign, in ASCII digits.
unfoldable pub int_of : Str → Result ℕ
unfolding number_from strip
int_of s = or_value_error (number_from 0 false (unsigned (strip s)))
